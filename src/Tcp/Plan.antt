-- ===== src/Tcp/Plan.antt =====
-- src/conn/net/tcp.rs and src/dns.rs: the addresses that a race is to try, in order.
use tlsurl.Base.{
  ℕ, zero, suc, ◌≤◌, ◌<◌, ◌≡◌, refl, sym, subst, ◌⊎◌, inl, inr, Bool, true, false, ◌||◌, not,
  Option, none, some, List, [], ◌∷◌, is_nil, is_some, length, arith, Bool-cases, Option-cases, drop,
  get_elem?, Elem, filter, Elem-filter,
}
use tlsurl.Tcp.{
  SocketAddr, is_ipv6, same_family, preferring_v6, split_by_preference, TcpOptions, ConnectingTcp,
  connecting_new, state_new,
}
use tlsurl.Tcp.Schedule.{alternate, schedule}

abbrev second : Option (ℕ × List SocketAddr) → List SocketAddr
second none = []
second (some (delay, addrs)) = addrs

-- The families by turns, the preferred one first.
abbrev pub plan_of : ConnectingTcp → List SocketAddr
plan_of connecting = alternate connecting.preferred (second connecting.fallback)

-- An address that can be reached from a local address, if one is set.
abbrev pub is_local : Bool → Bool → SocketAddr → Bool
is_local true false a = not (is_ipv6 a)
is_local false true a = is_ipv6 a
is_local _ _ a = true

-- The family of the only local address that is set, if the addresses are raced.
abbrev pub is_wanted : TcpOptions → SocketAddr → Bool
is_wanted config a =
    not (is_some config.happy_eyeballs_timeout) || is_local config.local_ipv4 config.local_ipv6 a

alternate-nil : {A : Type 0} (ps : List A) → alternate ps [] ≡ ps
alternate-nil [] = refl
alternate-nil (p ∷ ps) = refl

either_family :
    (addrs : List SocketAddr) (a : SocketAddr)
    → Elem a addrs
    → Elem a (filter (same_family (preferring_v6 addrs)) addrs)
      ⊎ Elem a (filter (same_family (not (preferring_v6 addrs))) addrs)
either_family addrs a there = elim (Bool-cases (same_family (preferring_v6 addrs) a)) [
  | inl same ↦ inl (Elem-filter (same_family (preferring_v6 addrs)) a addrs there same)
  | inr different ↦ inr (
      Elem-filter (same_family (not (preferring_v6 addrs))) a addrs there
        (ground (arith, different)))
]

pub Elem-alternate :
    {A : Type 0} (a : A) (ps fs : List A) → Elem a ps ⊎ Elem a fs → Elem a (alternate ps fs)
Elem-alternate a [] fs (inl h) = absurd h
Elem-alternate a [] fs (inr h) = h
Elem-alternate a (p ∷ ps) [] (inl h) = h
Elem-alternate a (p ∷ ps) [] (inr h) = absurd h
Elem-alternate a (p ∷ ps) (f ∷ fs) (inl (inl h)) = inl h
Elem-alternate a (p ∷ ps) (f ∷ fs) (inl (inr h)) = inr (inr (Elem-alternate a ps fs (inl h)))
Elem-alternate a (p ∷ ps) (f ∷ fs) (inr (inl h)) = inr (inl h)
Elem-alternate a (p ∷ ps) (f ∷ fs) (inr (inr h)) = inr (inr (Elem-alternate a ps fs (inr h)))

pub index_of_Elem :
    {A : Type 0} (a : A) (xs : List A)
    → Elem a xs
    → (k : ℕ) × (k < length xs) × (get_elem? xs k ≡ some a)
index_of_Elem a [] h = absurd h
index_of_Elem a (x ∷ xs) (inl h) = (0, ground arith, ground (arith, h))
index_of_Elem a (x ∷ xs) (inr h) =
    let (k, inside, found) = index_of_Elem a xs h in (suc k, ground (arith, inside), found)

pub Elem-of_get : {A : Type 0} (xs : List A) (k : ℕ) (a : A) → get_elem? xs k ≡ some a → Elem a xs
Elem-of_get [] k a h = absurd (ground (arith, h))
Elem-of_get (x ∷ xs) zero a h = inl (ground (arith, h))
Elem-of_get (x ∷ xs) (suc k) a h = inr (Elem-of_get xs k a h)

pub length-drop_nil : {A : Type 0} (n : ℕ) (xs : List A) → drop n xs ≡ [] → length xs ≤ n
length-drop_nil zero [] h = ground arith
length-drop_nil zero (x ∷ xs) h = absurd (ground (arith, h))
length-drop_nil (suc n) [] h = ground arith
length-drop_nil (suc n) (x ∷ xs) h = ground (arith, length-drop_nil n xs h)

split-wanted :
    (addrs : List SocketAddr) (l4 l6 : Bool) (a : SocketAddr)
    → Elem a addrs
    → is_local l4 l6 a ≡ true
    → Elem a (split_by_preference addrs l4 l6).0 ⊎ Elem a (split_by_preference addrs l4 l6).1
unfolding split_by_preference
split-wanted addrs true false a there wanted =
    inl (Elem-filter (same_family false) a addrs there wanted)
split-wanted addrs false true a there wanted =
    inl (Elem-filter (same_family true) a addrs there wanted)
split-wanted addrs true true a there wanted = either_family addrs a there
split-wanted addrs false false a there wanted = either_family addrs a there

plan-split :
    (addrs : List SocketAddr) (config : TcpOptions) (delay : ℕ)
    → config.happy_eyeballs_timeout ≡ some delay
    → plan_of (connecting_new addrs config)
      ≡ alternate
          (split_by_preference addrs config.local_ipv4 config.local_ipv6).0
          (split_by_preference addrs config.local_ipv4 config.local_ipv6).1
unfolding connecting_new
plan-split addrs config delay on =
    let halves = split_by_preference addrs config.local_ipv4 config.local_ipv6 in
    elim (Bool-cases (is_nil halves.1)) [
      | inl empty ↦ ground (arith, on, empty, alternate-nil halves.0)
      | inr more ↦ ground (arith, on, more)
    ]

pub plan-wanted :
    (addrs : List SocketAddr) (config : TcpOptions) (a : SocketAddr)
    → Elem a addrs
    → is_wanted config a ≡ true
    → Elem a (plan_of (connecting_new addrs config))
unfolding connecting_new
plan-wanted addrs config a there wanted = elim (Option-cases config.happy_eyeballs_timeout) [
  | inl off ↦ subst (Elem a) (ground (arith, off, alternate-nil addrs)) there
  | inr (delay, on) ↦ subst (Elem a) (sym (plan-split addrs config delay on)) (
      Elem-alternate a _ _ (
        split-wanted addrs config.local_ipv4 config.local_ipv6 a there
          (ground (arith, on, wanted))))
]

pub schedule-start :
    (connecting : ConnectingTcp) (timeout : Option ℕ)
    → schedule (state_new connecting timeout) ≡ plan_of connecting
schedule-start connecting timeout = elim (Option-cases connecting.fallback) [
  | inl alone ↦ ground (arith, alone)
  | inr ((delay, addrs), two) ↦ ground (arith, two)
]

abbrev pub plan : List SocketAddr → TcpOptions → List SocketAddr
plan addrs config = plan_of (connecting_new addrs config)
