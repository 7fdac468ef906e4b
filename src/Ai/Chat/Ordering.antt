-- ===== src/Ai/Chat/Ordering.antt =====
-- orderOpsForApplication of src/ai/ai.service.ts: edits are applied from the end of the text.
use meridian_backend.Prelude.{
  ℕ, ◌+◌, ◌≤◌, true, false, not, List, [], ◌∷◌, ◌≡◌, refl, any, inl, inr, Bool-cases, ◌==◌,
  select_where, All, All-imp, arith,
}
use meridian_backend.Ai.Content.{AiOp, insert_op, range_op}
use meridian_backend.Ai.Chat.{is_insert, precedes, place, sort_ops, order_ops_for_application}

-- Later positions rank higher, and among equal ones ranges rank higher than inserts.
abbrev pub rank : AiOp → ℕ
rank (insert_op position text anchor) = position + position
rank (range_op e start end_ expected) = start + start + 1

-- Every operation ranks at least as high as the ones after it.
abbrev pub AreDescending : List AiOp → Type 0
AreDescending [] = Unit
AreDescending (op ∷ ops) = All (λ next. rank next ≤ rank op) ops × AreDescending ops

-- The operations of one rank, in their order.
abbrev pub of_rank : ℕ → List AiOp → List AiOp
of_rank r = select_where (λ op. rank op == r)

precedes-rank : (a b : AiOp) → precedes a b ≡ true → rank b ≤ rank a
precedes-rank (insert_op p t x) (insert_op q u y) h = ground arith
precedes-rank (insert_op p t x) (range_op e q f u) h = ground arith
precedes-rank (range_op d p c t) (insert_op q u y) h = ground arith
precedes-rank (range_op d p c t) (range_op e q f u) h = ground arith

follows-rank : (a b : AiOp) → precedes a b ≡ false → rank a + 1 ≤ rank b
follows-rank (insert_op p t x) (insert_op q u y) h = ground arith
follows-rank (insert_op p t x) (range_op e q f u) h = ground arith
follows-rank (range_op d p c t) (insert_op q u y) h = ground arith
follows-rank (range_op d p c t) (range_op e q f u) h = ground arith

All-place :
    (P : AiOp → Type 0) (op : AiOp) (ops : List AiOp) → P op → All P ops → All P (place op ops)
All-place P op [] p h = (p, tt)
All-place P op (next ∷ ops) p (q, h) = elim (Bool-cases (precedes op next)) [
  | inl first ↦ rw first (p, (q, h))
  | inr later ↦ rw later (q, All-place P op ops p h)
]

place-AreDescending :
    (op : AiOp) (ops : List AiOp) → AreDescending ops → AreDescending (place op ops)
place-AreDescending op [] h = (tt, tt)
place-AreDescending op (next ∷ ops) (below, h) = elim (Bool-cases (precedes op next)) [
  | inl first ↦
      let above = precedes-rank op next first in
      rw first (
        (
          above,
          All-imp (λ o. rank o ≤ rank next) (λ o. rank o ≤ rank op)
              (λ o le. omega (arith, above, le)) ops below,
        ),
        (below, h),
      )
  | inr later ↦
      let under = follows-rank op next later in
      rw later (
        All-place (λ o. rank o ≤ rank next) op ops (omega (arith, under)) below,
        place-AreDescending op ops h,
      )
]

sort_ops-AreDescending : (ops : List AiOp) → AreDescending (sort_ops ops)
sort_ops-AreDescending [] = tt
sort_ops-AreDescending (op ∷ ops) =
    place-AreDescending op (sort_ops ops) (sort_ops-AreDescending ops)

-- An operation is placed before those of its own rank.
place-of_rank :
    (r : ℕ) (op : AiOp) (ops : List AiOp) → of_rank r (place op ops) ≡ of_rank r (op ∷ ops)
place-of_rank r op [] = refl
place-of_rank r op (next ∷ ops) = elim (Bool-cases (precedes op next)) [
  | inl first ↦ rw first refl
  | inr later ↦
      let under = follows-rank op next later in
      rw later (ground (arith, under, place-of_rank r op ops))
]

sort_ops-of_rank : (r : ℕ) (ops : List AiOp) → of_rank r (sort_ops ops) ≡ of_rank r ops
sort_ops-of_rank r [] = refl
sort_ops-of_rank r (op ∷ ops) =
    ground (arith, place-of_rank r op (sort_ops ops), sort_ops-of_rank r ops)

-- Where one of the operations deletes or formats a range, they are applied in descending order of
-- position, ranges before inserts at the same one, and the operations of each position and kind are
-- those of the answer in the order of the answer.
pub order_ops_for_application-AreDescending :
    (ops : List AiOp) (r : ℕ)
    → any (λ op. not (is_insert op)) ops ≡ true
    → AreDescending (order_ops_for_application ops)
      × (of_rank r (order_ops_for_application ops) ≡ of_rank r ops)
unfolding order_ops_for_application
order_ops_for_application-AreDescending ops r ranged =
    rw ranged (sort_ops-AreDescending ops, sort_ops-of_rank r ops)
