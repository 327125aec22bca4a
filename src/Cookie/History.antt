-- ===== src/Cookie/History.antt =====
-- Any sequence of calls that change a `Jar` (src/cookie/jar.rs), from the empty jar.
use tlsurl.Base.{ℕ, Option, Text, List, [], ◌∷◌, text_eq}
use tlsurl.Uri.{Uri}
use tlsurl.Cookie.{RawCookie, host_eq, Externals}
use tlsurl.Cookie.Store.{Store, default_store}
use tlsurl.Cookie.Jar.{add, remove, clear}
use tlsurl.Cookie.Header.{set_cookies}
use tlsurl.Cookie.Invariant.{WellFormed}
use tlsurl.Cookie.Preserve.{
  default-WellFormed, add-WellFormed, remove-WellFormed, set_cookies-WellFormed,
}

pub data JarCall : Type 0 where
  adds : Option RawCookie → Uri → ℕ → JarCall
  removes : Text → Uri → JarCall
  sets : List (Text × ℕ) → Uri → JarCall
  clears : JarCall

module _ (ext : Externals) where
  unfoldable pub step : Store → JarCall → Store
  step s (adds c uri now) = add ext s c uri now
  step s (removes name uri) = remove ext s name uri
  step s (sets headers uri) = set_cookies ext s headers uri
  step s clears = clear s

  unfoldable pub run : Store → List JarCall → Store
  run s [] = s
  run s (c ∷ cs) = run (step s c) cs

  step-WellFormed : (s : Store) (c : JarCall) → WellFormed s → WellFormed (step s c)
  unfolding step
  step-WellFormed s (adds c uri now) v = add-WellFormed ext s c uri now v
  step-WellFormed s (removes name uri) v = remove-WellFormed ext s name uri v
  step-WellFormed s (sets headers uri) v = set_cookies-WellFormed ext headers s uri v
  step-WellFormed s clears v = default-WellFormed

  run-WellFormed_from : (cs : List JarCall) (s : Store) → WellFormed s → WellFormed (run s cs)
  unfolding run
  run-WellFormed_from [] s v = v
  run-WellFormed_from (c ∷ cs) s v = run-WellFormed_from cs (step s c) (step-WellFormed s c v)

  -- After any calls on an empty jar each map has a key at most once, no path or domain is left
  -- without a cookie, each entry carries the name, the path and the scope that it is stored under,
  -- and short of the largest `u64` its index is below the next one.
  pub run-WellFormed : (cs : List JarCall) → WellFormed (run default_store cs)
  run-WellFormed cs = run-WellFormed_from cs default_store default-WellFormed
