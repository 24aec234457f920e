-- ===== src/FieldDecoder/Find.antt =====
-- The plain search `FieldDecoder::find`.
use simdfix.Base.{
  ℕ, zero, suc, ◌+◌, ◌-◌, ◌≤◌, ◌<◌, ◌≡◌, ◌≢◌, subst, Bool-cases, inl, inr, false, ◌==◌, ==_iff,
  arith,
}
use simdfix.LinearSearch.{Tags}
use simdfix.FieldDecoder.{FieldDecoder, find_loop, find_field}

-- Where the next occurrence of a tag is, `e` when there is none from `i` on.
pub record IsNext (tags : Tags) (tag i e r : ℕ) : Type 0 where
  pub from : i ≤ r
  pub to : r ≤ e
  pub none_before : (k : ℕ) → i ≤ k → k < r → tags k ≢ tag
  pub there : r < e → tags r ≡ tag

find_loop-IsNext :
    (left i : ℕ) (tags : Tags) (tag : ℕ) → IsNext tags tag i (i + left) (find_loop left i tags tag)
unfolding find_loop
find_loop-IsNext zero i tags tag = record {
  from = omega arith;
  to = omega arith;
  none_before = λ k lo hi. absurd (omega arith);
  there = λ h. absurd (omega arith);
}
find_loop-IsNext (suc left) i tags tag =
    let n = find_loop-IsNext left (i + 1) tags tag in
    elim (Bool-cases (tags i == tag)) [
      | inl here ↦ rw here (record {
        from = omega arith;
        to = omega arith;
        none_before = λ k lo hi. absurd (omega arith);
        there = λ h. (==_iff (tags i) tag).0 here;
      })
      | inr other ↦ rw other (record {
        from = omega (arith, n.from);
        to = omega (arith, n.to);
        none_before = λ k lo hi. elim (Bool-cases (k == i)) [
          | inl same ↦ rw ((==_iff k i).0 same) (not_here i tag tags other)
          | inr later ↦ n.none_before k (ground arith) hi
        ];
        there = λ h. n.there (omega arith);
      })
    ]
  where
    not_here : (i tag : ℕ) (tags : Tags) → (tags i == tag) ≡ false → tags i ≢ tag
    not_here i tag tags h = ground arith

-- The search stops at the first occurrence of the tag, or at the end of the range.
pub find_field-IsNext :
    (offset tag end : ℕ) (d : FieldDecoder)
    → offset ≤ end
    → IsNext d.tags tag offset end (find_field offset tag end d)
unfolding find_field
find_field-IsNext offset tag end d h =
    let e : offset + (end - offset) ≡ end = omega arith in
    subst (λ (x : ℕ). IsNext d.tags tag offset x (find_loop (end - offset) offset d.tags tag)) e
      (find_loop-IsNext (end - offset) offset d.tags tag)
