-- ===== src/Core0/Numbered.antt =====
-- core0.py: the wire sequences that are claimed and not yet given up.
use pico_dualcore.Prelude.{
  ℕ, suc, ◌+◌, ◌≤◌, Option, none, some, List, [], ◌∷◌, ◌++◌, ◌≡◌, ap, arith, if◌then◌else◌, ltb,
  ◌==◌,
}
use pico_dualcore.Core0.State.{Response, RebootRequest}

-- How often n is stamped, on the message with this stamp, on the responses, on the reboot and on the entries.
abbrev pub is_at : ℕ → Option ℕ → ℕ
is_at n none = 0
is_at n (some m) = if m == n then 1 else 0

abbrev pub in_responses : ℕ → List Response → ℕ
in_responses n [] = 0
in_responses n (r ∷ rs) = is_at n r.stamps.wire_sequence + in_responses n rs

abbrev pub in_reboot : ℕ → Option RebootRequest → ℕ
in_reboot n none = 0
in_reboot n (some q) = is_at n q.stamps.wire_sequence

abbrev pub in_entries : ℕ → List (ℕ × ℕ) → ℕ
in_entries n [] = 0
in_entries n ((ident, m) ∷ es) = is_at n (some m) + in_entries n es

abbrev pub uses : ℕ → List Response → Option RebootRequest → List (ℕ × ℕ) → ℕ
uses n rs q es = in_reboot n q + in_responses n rs + in_entries n es

-- A sequence below the next one is stamped on one message at most, and no other is stamped.
abbrev pub Numbered : List Response → Option RebootRequest → ℕ → List (ℕ × ℕ) → Type 0
Numbered rs q next es = (n : ℕ) → uses n rs q es ≤ (if ltb n next then 1 else 0)

pub in_responses-snoc :
    (n : ℕ) (rs : List Response) (r : Response)
    → in_responses n (rs ++ r ∷ []) ≡ in_responses n rs + is_at n r.stamps.wire_sequence
in_responses-snoc n [] r = omega arith
in_responses-snoc n (x ∷ rs) r = omega (arith, in_responses-snoc n rs r)

-- Whatever is stamped no more often than before is numbered as before.
pub Numbered-less :
    (rs rs' : List Response) (q q' : Option RebootRequest) (next : ℕ) (es : List (ℕ × ℕ))
    → ((n : ℕ) → uses n rs' q' es ≤ uses n rs q es)
    → Numbered rs q next es
    → Numbered rs' q' next es
Numbered-less rs rs' q q' next es less h n = omega (arith, less n, h n)

-- One stamp more, with the next sequence.
pub Numbered-claim :
    (rs rs' : List Response) (q q' : Option RebootRequest) (next : ℕ) (es es' : List (ℕ × ℕ))
    → ((n : ℕ) → uses n rs' q' es' ≤ is_at n (some next) + uses n rs q es)
    → Numbered rs q next es
    → Numbered rs' q' (suc next) es'
Numbered-claim rs rs' q q' next es es' more h n = ground (arith, more n, h n)

-- A response that bears no stamp yet is added.
pub Numbered-snoc :
    (rs : List Response) (r : Response) (q : Option RebootRequest) (next : ℕ) (es : List (ℕ × ℕ))
    → r.stamps.wire_sequence ≡ none
    → Numbered rs q next es
    → Numbered (rs ++ r ∷ []) q next es
Numbered-snoc rs r q next es fresh =
    Numbered-less rs (rs ++ r ∷ []) q q next es
      λ n. omega (arith, in_responses-snoc n rs r, ap (is_at n) fresh)
