-- ===== src/Replay/Contiguous.antt =====
-- validateContiguous: the loop accepts exactly the slices with no gap.
use event_streaming_and_audi.Prelude.{
  ℕ, List, get_elem?, ◌∷◌, ◌≡◌, some, suc, int64_succ, none, arith, ◌↔◌, int_beq_iff, [], zero,
  refl,
}
use event_streaming_and_audi.Replay.{validate_after, validate_contiguous}
use event_streaming_and_audi.Event.{Event}

-- Each event of the slice but the first has the version after that of the event before it.
abbrev pub HasNoGap : List Event → Type 0
HasNoGap es =
    (i : ℕ) (prev curr : Event)
    → get_elem? es i ≡ some prev
    → get_elem? es (suc i) ≡ some curr
    → curr.version ≡ int64_succ prev.version

pub HasNoGap-tail : (e : Event) (es : List Event) → HasNoGap (e ∷ es) → HasNoGap es
HasNoGap-tail e es h i = h (suc i)

HasNoGap-cons :
    (e f : Event) (es : List Event)
    → f.version ≡ int64_succ e.version
    → HasNoGap (f ∷ es)
    → HasNoGap (e ∷ f ∷ es)
HasNoGap-cons e f es first h zero prev curr p q = ground arith
HasNoGap-cons e f es first h (suc i) prev curr p q = h i prev curr p q

HasNoGap-one : (e : Event) → HasNoGap (e ∷ [])
HasNoGap-one e zero prev curr p q = cc
HasNoGap-one e (suc i) prev curr p q = cc

validate_after_iff :
    (e : Event) (es : List Event) → (validate_after e es ≡ none) ↔ HasNoGap (e ∷ es)
unfolding validate_after
validate_after_iff e [] = (λ _. HasNoGap-one e, λ _. refl)
validate_after_iff e (f ∷ es) = (
  λ h.
      HasNoGap-cons e f es (ground (arith, int_beq_iff f.version (int64_succ e.version)))
        ((validate_after_iff f es).0 (ground arith)),
  λ h.
      let first = h 0 e f refl refl in
      let later = (validate_after_iff f es).1 (HasNoGap-tail e (f ∷ es) h) in
      ground (arith, int_beq_iff f.version (int64_succ e.version)),
)

-- validateContiguous finds no error exactly when every event has the version after that of the event
-- before it.
pub validate_contiguous_iff : (es : List Event) → (validate_contiguous es ≡ none) ↔ HasNoGap es
unfolding validate_contiguous
validate_contiguous_iff [] = (λ _ i prev curr p q. cc, λ _. refl)
validate_contiguous_iff (e ∷ es) = validate_after_iff e es
