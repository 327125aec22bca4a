-- ===== src/Tcp/Schedule.antt =====
-- src/conn/net/tcp.rs: the order in which the addresses of two families are taken.
use tlsurl.Base.{
  ◌+◌, ◌≡◌, refl, ap, ◌⊎◌, inl, inr, Bool, true, false, ◌&&◌, ◌||◌, not, none, some, List, [], ◌∷◌,
  if◌then◌else◌, is_nil, unwrap_or, length, arith, Bool-cases,
}
use tlsurl.Tcp.{SocketAddr, State, next_remote, connect_next}
use tlsurl.Tcp.Racing.{remaining}

-- One of the first list, one of the second, and so on, until one of them is used up.
abbrev pub alternate : {A : Type 0} → List A → List A → List A
alternate [] fs = fs
alternate (p ∷ ps) [] = p ∷ ps
alternate (p ∷ ps) (f ∷ fs) = p ∷ f ∷ alternate ps fs

pub alternate-cons :
    {A : Type 0} (p : A) (ps fs : List A) → alternate (p ∷ ps) fs ≡ p ∷ alternate fs ps
alternate-cons p ps [] = refl
alternate-cons p [] (f ∷ fs) = refl
alternate-cons p (q ∷ ps) (f ∷ fs) = ap (λ l. p ∷ f ∷ l) (alternate-cons q ps fs)

pub length-alternate :
    {A : Type 0} (ps fs : List A) → length (alternate ps fs) ≡ length ps + length fs
length-alternate [] fs = ground arith
length-alternate (p ∷ ps) [] = ground arith
length-alternate (p ∷ ps) (f ∷ fs) = ground (arith, length-alternate ps fs)

abbrev pub fallback_addrs : State → List SocketAddr
fallback_addrs s = unwrap_or s.fallback []

-- The addresses that are left, in the order in which they are to be tried.
abbrev pub schedule : State → List SocketAddr
schedule s =
    if s.next_fallback
    then alternate (fallback_addrs s) s.preferred
    else alternate s.preferred (fallback_addrs s)

pub length-schedule : (s : State) → length (schedule s) ≡ remaining s
length-schedule s = ground (
  arith,
  length-alternate (fallback_addrs s) s.preferred,
  length-alternate s.preferred (fallback_addrs s),
)

-- All that is not an address or whose turn it is.
abbrev pub Others : State → State → Type 0
Others s u =
    (u.attempts ≡ s.attempts)
    × (u.next_attempt_order ≡ s.next_attempt_order)
    × (u.first_error ≡ s.first_error)

-- The next address is the first of the schedule.
pub record Takes (s : State) : Type 0 where
  pub use_fallback : Bool
  pub turned : State
  pub left : State
  pub addr : SocketAddr
  pub turn : next_remote s ≡ some (use_fallback, turned)
  pub taken : connect_next use_fallback turned ≡ some (addr, left)
  pub first : schedule s ≡ addr ∷ schedule left
  pub others : Others s left

schedule-preferred :
    (s : State) (p : SocketAddr) (ps : List SocketAddr)
    → s.preferred ≡ p ∷ ps
    → s.next_fallback && not (is_nil (fallback_addrs s)) ≡ false
    → schedule s ≡ p ∷ alternate (fallback_addrs s) ps
schedule-preferred s p ps e turn = ground (arith, e, turn, alternate-cons p ps (fallback_addrs s))

schedule-fallback :
    (s : State) (f : SocketAddr) (fs : List SocketAddr)
    → fallback_addrs s ≡ f ∷ fs
    → s.next_fallback || is_nil s.preferred ≡ true
    → schedule s ≡ f ∷ alternate s.preferred fs
schedule-fallback s f fs e turn = ground (arith, e, turn, alternate-cons f fs s.preferred)

preferred-Takes :
    (s : State) (p : SocketAddr) (ps : List SocketAddr)
    → s.preferred ≡ p ∷ ps
    → s.next_fallback && not (is_nil (fallback_addrs s)) ≡ false
    → Takes s
unfolding next_remote connect_next
preferred-Takes s p ps e turn = record {
  use_fallback = false;
  turned = record s { next_fallback = true };
  left = record s { next_fallback = true; preferred = ps };
  addr = p;
  turn = ground (arith, e, turn);
  taken = ground (arith, e);
  first = schedule-preferred s p ps e turn;
  others = (refl, refl, refl);
}

fallback-Takes :
    (s : State) (f : SocketAddr) (fs : List SocketAddr)
    → fallback_addrs s ≡ f ∷ fs
    → s.next_fallback || is_nil s.preferred ≡ true
    → Takes s
unfolding next_remote connect_next
fallback-Takes s f fs e turn = record {
  use_fallback = true;
  turned = record s { next_fallback = false };
  left = record s { next_fallback = false; fallback = some fs };
  addr = f;
  turn = ground (arith, e, turn);
  taken = ground (arith, e);
  first = schedule-fallback s f fs e turn;
  others = (refl, refl, refl);
}

Takes-lists :
    (s : State) (ps fs : List SocketAddr)
    → s.preferred ≡ ps
    → fallback_addrs s ≡ fs
    → ((schedule s ≡ []) × (next_remote s ≡ none)) ⊎ Takes s
unfolding next_remote
Takes-lists s [] [] e k = inl (ground (arith, e, k), ground (arith, e, k))
Takes-lists s [] (f ∷ fs) e k = inr (fallback-Takes s f fs k (ground (arith, e)))
Takes-lists s (p ∷ ps) [] e k = inr (preferred-Takes s p ps e (ground (arith, k)))
Takes-lists s (p ∷ ps) (f ∷ fs) e k = elim (Bool-cases s.next_fallback) [
  | inl turn ↦ inr (fallback-Takes s f fs k (ground (arith, turn)))
  | inr turn ↦ inr (preferred-Takes s p ps e (ground (arith, turn)))
]

pub Takes-cases : (s : State) → ((schedule s ≡ []) × (next_remote s ≡ none)) ⊎ Takes s
Takes-cases s = Takes-lists s s.preferred (fallback_addrs s) refl refl
