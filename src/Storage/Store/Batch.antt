-- ===== src/Storage/Store/Batch.antt =====
-- What a batch of writes leaves in a file (crates/kalpak-storage/src/store.rs `flush_pending`,
-- crates/kalpak-storage/src/io.rs `write_batch`).
use mathlib.Core.List.{append_assoc, append-nil}
use kalpakdb.Prelude.{
  ℕ, ◌+◌, ◌-◌, ◌≡◌, refl, sym, ap, ◌∙◌, subst, true, List, [], ◌∷◌, ◌++◌, Bytes, length, take, drop,
  replicate, length-append, arith,
}
use kalpakdb.Storage.Segment.Record.{take_front}
use kalpakdb.Storage.Store.Writing.{Event, works, fails, write_at, Written, write_batch}

-- Each write of the batch begins where the one before it ends.
abbrev pub Consecutive : ℕ → List (ℕ × Bytes) → Type 0
Consecutive k [] = Unit
Consecutive k (w ∷ ws) = (w.0 ≡ k) × Consecutive (k + length w.1) ws

unfoldable pub joined : List (ℕ × Bytes) → Bytes
joined [] = []
joined (w ∷ ws) = w.1 ++ joined ws

pub joined-append :
    (ws : List (ℕ × Bytes)) (k : ℕ) (b : Bytes) → joined (ws ++ (k, b) ∷ []) ≡ joined ws ++ b
unfolding joined
joined-append [] k b = append-nil b
joined-append (w ∷ ws) k b =
    ap (λ t. w.1 ++ t) (joined-append ws k b) ∙ sym (append_assoc w.1 (joined ws) b)

pub Consecutive-snoc :
    (k : ℕ) (ws : List (ℕ × Bytes)) (b : Bytes)
    → Consecutive k ws
    → Consecutive k (ws ++ (k + length (joined ws), b) ∷ [])
unfolding joined
Consecutive-snoc k [] b h = (omega arith, tt)
Consecutive-snoc k (w ∷ ws) b (at, h) = (
  at,
  subst (λ o. Consecutive (k + length w.1) (ws ++ (o, b) ∷ []))
      (omega (arith, length-append w.1 (joined ws))) (Consecutive-snoc (k + length w.1) ws b h),
)

-- A write at the end of the first part keeps that part.
write_at-front :
    (front rest buf : Bytes) (k : ℕ)
    → k ≡ length front
    → write_at (front ++ rest) buf k ≡ (front ++ buf) ++ drop (k + length buf) (front ++ rest)
unfolding write_at
write_at-front front rest buf k e =
    let file = front ++ rest in
    let none_missing : k - length file ≡ 0 = omega (arith, e, length-append front rest) in
    ap (λ n. take k (file ++ replicate n 0) ++ (buf ++ drop (k + length buf) file)) none_missing
    ∙ ap (λ f. take k f ++ (buf ++ drop (k + length buf) file)) (append-nil file)
    ∙ ap (λ f. f ++ (buf ++ drop (k + length buf) file)) (take_front k front rest (sym e))
    ∙ sym (append_assoc front buf (drop (k + length buf) file))

-- The file begins with the first part, and with the whole batch when that is done.
abbrev pub Outcome : Bytes → Bytes → Written → Type 0
Outcome front batch w =
    ((rest : Bytes) × (w.file ≡ front ++ rest))
    × (w.done ≡ true → (rest : Bytes) × (w.file ≡ (front ++ batch) ++ rest))

Outcome-later :
    (front buf batch : Bytes) (w : Written)
    → Outcome (front ++ buf) batch w
    → Outcome front (buf ++ batch) w
Outcome-later front buf batch w ((rest, e), whole) = (
  (buf ++ rest, e ∙ append_assoc front buf rest),
  λ d. let (r, q) = whole d in (r, q ∙ ap (λ t. t ++ r) (append_assoc front buf batch)),
)

next_front :
    (front buf : Bytes) (ws : List (ℕ × Bytes))
    → Consecutive (length front + length buf) ws
    → Consecutive (length (front ++ buf)) ws
next_front front buf ws h = subst (λ k. Consecutive k ws) (sym (length-append front buf)) h

written_first :
    (front rest buf : Bytes) (k : ℕ) (ws : List (ℕ × Bytes)) (es : List Event)
    → k ≡ length front
    → Outcome
        (front ++ buf)
        (joined ws)
        (write_batch ((front ++ buf) ++ drop (k + length buf) (front ++ rest)) ws es)
    → Outcome front (buf ++ joined ws) (write_batch (write_at (front ++ rest) buf k) ws es)
written_first front rest buf k ws es at h =
    subst (λ f. Outcome front (buf ++ joined ws) (write_batch f ws es))
      (sym (write_at-front front rest buf k at))
      (Outcome-later front buf (joined ws)
        (write_batch ((front ++ buf) ++ drop (k + length buf) (front ++ rest)) ws es) h)

pub write_batch-Outcome :
    (writes : List (ℕ × Bytes)) (events : List Event) (front rest : Bytes)
    → Consecutive (length front) writes
    → Outcome front (joined writes) (write_batch (front ++ rest) writes events)
unfolding write_batch joined
write_batch-Outcome [] [] front rest h =
    ((rest, refl), λ d. (rest, ap (λ t. t ++ rest) (sym (append-nil front))))
write_batch-Outcome [] (works ∷ es) front rest h =
    ((rest, refl), λ d. (rest, ap (λ t. t ++ rest) (sym (append-nil front))))
write_batch-Outcome [] (fails n ∷ es) front rest h = ((rest, refl), λ d. absurd (ground arith))
write_batch-Outcome ((k, buf) ∷ ws) [] front rest (at, h) =
    written_first front rest buf k ws [] at (
      write_batch-Outcome ws [] (front ++ buf) (drop (k + length buf) (front ++ rest))
        (next_front front buf ws h))
write_batch-Outcome ((k, buf) ∷ ws) (works ∷ es) front rest (at, h) =
    written_first front rest buf k ws es at (
      write_batch-Outcome ws es (front ++ buf) (drop (k + length buf) (front ++ rest))
        (next_front front buf ws h))
write_batch-Outcome ((k, buf) ∷ ws) (fails n ∷ es) front rest (at, h) = (
  (
    take n buf ++ drop (k + length (take n buf)) (front ++ rest),
    write_at-front front rest (take n buf) k at
        ∙ append_assoc front (take n buf) (drop (k + length (take n buf)) (front ++ rest)),
  ),
  λ d. absurd (ground arith),
)
