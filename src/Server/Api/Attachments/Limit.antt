-- ===== src/Server/Api/Attachments/Limit.antt =====
-- An upload keeps what a user stores within the limit.
use umewarden.Prelude.{
  ℕ, ◌+◌, ◌-◌, ◌^◌, ◌≡◌, refl, ap, sym, ◌∙◌, Bool-cases, true, false, Option, none, some, inl, inr,
  arith, if◌then◌else◌,
}
use umewarden.Prelude.Int.{
  ℤ, pos, negsuc, ◌+ℤ◌, ◌-ℤ◌, ◌≤ℤ◌, ltb_ℤ, pos_part, neg_part, +ℤ_parts, -ℤ_parts,
}
use Prim.Native.Nat.{◌≤◌, ◌<◌}
use umewarden.Server.Db.{Db, ok}
use umewarden.Server.Models.Attachment
use umewarden.Server.Models.Attachment.{is_owner, owner_of, sum_sizes}
use umewarden.Server.Api.Attachments.{
  checked, in_bytes, is_zero, left_of, positive, size_limit, is_over, and_then,
}

-- all that the user stores, in bytes
abbrev pub total : ℕ → Db → ℤ
total user db = sum_sizes (Attachment.find_all_by_user user db)

checked-eq : (z w : ℤ) → checked z ≡ some w → w ≡ z
checked-eq (pos n) w h = ground (arith, h)
checked-eq (negsuc n) w h = ground (arith, h)

-- a step of the chain of checked operations that gives a number
and_then-some :
    (o : Option ℤ) (f : ℤ → Option ℤ) (b : ℤ)
    → and_then o f ≡ some b
    → (a : ℤ) × (o ≡ some a) × (f a ≡ some b)
and_then-some none f b h = absurd (ground (arith, h))
and_then-some (some a) f b h = (a, refl, h)

left_of-eq :
    (kb used left : ℤ) → left_of kb used (pos 0) ≡ some left → left ≡ in_bytes kb -ℤ used +ℤ pos 0
left_of-eq kb used left e =
    let first =
      and_then-some (checked (in_bytes kb))
        (λ l. and_then (checked (l -ℤ used)) (λ l'. checked (l' +ℤ pos 0))) left e in
    let second =
      and_then-some (checked (first.0 -ℤ used)) (λ l'. checked (l' +ℤ pos 0)) left first.2 in
    let a = checked-eq (in_bytes kb) first.0 first.1 in
    let b = checked-eq (first.0 -ℤ used) second.0 second.1 in
    let c = checked-eq (second.0 +ℤ pos 0) left second.2 in
    c ∙ ap (λ z. z +ℤ pos 0) (b ∙ ap (λ z. z -ℤ used) a)

not_over : (k u s : ℤ) → ltb_ℤ (k -ℤ u +ℤ pos 0) s ≡ false → u +ℤ s ≤ℤ k
not_over k u s f =
    let g : pos_part s + neg_part (k -ℤ u +ℤ pos 0) ≤ pos_part (k -ℤ u +ℤ pos 0) + neg_part s =
      ground (arith, f) in
    omega (arith, g, +ℤ_parts (k -ℤ u) (pos 0), -ℤ_parts k u, +ℤ_parts u s)

-- A file that passes the checks fits into what the limit leaves.
pub left_fits :
    (kb used size left : ℤ)
    → left_of kb used (pos 0) ≡ some left
    → ltb_ℤ left size ≡ false
    → used +ℤ size ≤ℤ in_bytes kb
left_fits kb used size left e f =
    let same = left_of-eq kb used left e in
    let f' = rw same at f in not_over (in_bytes kb) used size f'

checked-bound : (z w : ℤ) → checked z ≡ some w → ltb_ℤ z (pos (2 ^ 63)) ≡ true
checked-bound (pos n) w h = ground (arith, h)
checked-bound (negsuc n) w h = ground (arith, h)

positive-some :
    (o limit : Option ℤ)
    → positive o ≡ ok limit
    → (left : ℤ) × (o ≡ some left) × (ltb_ℤ (pos 0) left ≡ true) × (limit ≡ some left)
positive-some o limit h = go o h
  where
    go :
        (o : Option ℤ)
        → positive o ≡ ok limit
        → (left : ℤ) × (o ≡ some left) × (ltb_ℤ (pos 0) left ≡ true) × (limit ≡ some left)
    go none h = absurd (ground (arith, h))
    go (some left) h = elim (Bool-cases (ltb_ℤ (pos 0) left)) [
      | inl e ↦ (left, refl, e, ground (arith, rw e at h))
      | inr e ↦ absurd (ground (arith, rw e at h))
    ]

-- no more is left than nothing when more is used than can be counted
none_left :
    (k left : ℤ)
    → ltb_ℤ k (pos (2 ^ 63)) ≡ true
    → left ≡ k -ℤ pos (2 ^ 63 - 1) +ℤ pos 0
    → ltb_ℤ (pos 0) left ≡ true
    → ⊥
none_left k left b e p =
    let p' = rw e at p in
    let g : pos_part k < pos_part (pos (2 ^ 63)) + neg_part k = ground (arith, b) in
    let g' : neg_part (k -ℤ pos (2 ^ 63 - 1) +ℤ pos 0) < pos_part (k -ℤ pos (2 ^ 63 - 1) +ℤ pos 0) =
      ground (arith, p') in
    omega (arith, g, g', +ℤ_parts (k -ℤ pos (2 ^ 63 - 1)) (pos 0), -ℤ_parts k (pos (2 ^ 63 - 1)))

abbrev pub capped : ℤ → ℤ
capped t = if ltb_ℤ t (pos (2 ^ 63)) then t else pos (2 ^ 63 - 1)

pub limit-fits :
    (kb t size : ℤ) (limit : Option ℤ)
    → size_limit (some kb) (capped t) (pos 0) ≡ ok limit
    → is_over limit size ≡ false
    → t +ℤ size ≤ℤ in_bytes kb
unfolding size_limit
limit-fits kb t size limit h f = elim (Bool-cases (is_zero kb)) [
  | inl z ↦ absurd (ground (arith, rw z at h))
  | inr z ↦
      let h' = rw z at h in
      let found = positive-some (left_of kb (capped t) (pos 0)) limit h' in
      let f' : ltb_ℤ found.0 size ≡ false = ap (λ o. is_over o size) (sym found.3) ∙ f in
      elim (Bool-cases (ltb_ℤ t (pos (2 ^ 63)))) [
        | inl e ↦
            let same : capped t ≡ t = rw e refl in
            left_fits kb t size found.0 (ap (λ u. left_of kb u (pos 0)) (sym same) ∙ found.1) f'
        | inr e ↦
            let same : capped t ≡ pos (2 ^ 63 - 1) = rw e refl in
            let chain = ap (λ u. left_of kb u (pos 0)) (sym same) ∙ found.1 in
            let first = and_then-some (checked (in_bytes kb)) _ found.0 found.1 in
            absurd (
              none_left (in_bytes kb) found.0 (checked-bound (in_bytes kb) first.0 first.1)
                (left_of-eq kb (pos (2 ^ 63 - 1)) found.0 chain) found.2)
      ]
]
