-- ===== src/Server/Api/Email/Obscure.antt =====
-- server/src/api/core/two_factor/email.rs, obscure_email. `String::truncate` counts bytes and panics
-- inside a character; a panic is `none`.
use mathlib.Core.List.{append-nil}
use umewarden.Prelude.{
  ℕ, zero, suc, ◌+◌, ◌-◌, ◌≤◌, ◌≡◌, refl, ◌≢◌, ◌⊎◌, ◌↔◌, inl, inr, Bool, true, false, not, ◌&&◌,
  Option, none, some, [], ◌∷◌, ◌++◌, length, length-append, take, replicate, all, arith, leb, ◌==◌,
  if◌then◌else◌, Bool-cases,
}
use umewarden.Prelude.Text.{Text, utf8}

-- the bytes of a character
abbrev width : ℕ → ℕ
width c = length (utf8 (c ∷ []))

abbrev extend : ℕ → Option Text → Option Text
extend c none = none
extend c (some t) = some (c ∷ t)

-- `String::truncate`
unfoldable pub truncate : ℕ → Text → Option Text
truncate n [] = some []
truncate n (c ∷ s) =
    let rest = truncate (n - width c) s in
    if n == 0 then some [] else if leb (width c) n then extend c rest else none

abbrev begin : ℕ → ℕ → Text → Option (Text × Text) → Option (Text × Text)
begin d c s none = if c == d then some ([], s) else none
begin d c s (some (a, b)) = some (c ∷ a, b)

-- `rsplitn(2, …)`, name first
unfoldable pub rsplit_once : ℕ → Text → Option (Text × Text)
rsplit_once d [] = none
rsplit_once d (c ∷ s) = begin d c s (rsplit_once d s)

abbrev starred : ℕ → Option Text → Option Text
starred n none = none
starred n (some t) = some (t ++ replicate n b'*')

-- an empty name wraps the count of stars around, which no text can hold
unfoldable pub new_name : Text → Option Text
new_name name =
    let name_size = length name in
    if leb 1 name_size && leb name_size 3
    then some (replicate name_size b'*')
    else if name_size == 0
    then none
    else starred (name_size - 2) (truncate 2 name)

abbrev join : Text → Option Text → Option Text
join domain none = none
join domain (some t) = some (t ++ b'@' ∷ domain)

abbrev obscure_parts : Option (Text × Text) → Option Text
obscure_parts none = none
obscure_parts (some (name, domain)) = join domain (new_name name)

unfoldable pub obscure_email : Text → Option Text
obscure_email email = obscure_parts (rsplit_once b'@' email)

-- a text without the at sign
abbrev pub has_no_at : Text → Bool
has_no_at = all (λ c. not (c == b'@'))

rsplit-domain : (domain : Text) → has_no_at domain ≡ true → rsplit_once b'@' domain ≡ none
unfolding rsplit_once
rsplit-domain [] h = refl
rsplit-domain (c ∷ s) h =
    let rest = rsplit-domain s (ground (arith, h)) in
    let other : (c == b'@') ≡ false = ground (arith, h) in rw rest (rw other refl)

rsplit_lem :
    (name domain : Text)
    → has_no_at domain ≡ true
    → rsplit_once b'@' (name ++ b'@' ∷ domain) ≡ some (name, domain)
unfolding rsplit_once
rsplit_lem [] domain h = rw (rsplit-domain domain h) refl
rsplit_lem (c ∷ name) domain h = rw (rsplit_lem name domain h) refl

bytes_cons : (c : ℕ) (s : Text) → length (utf8 (c ∷ s)) ≡ width c + length (utf8 s)
unfolding utf8
bytes_cons c s = simp (length-append, append-nil)

bytes_pos : (c : ℕ) → 1 ≤ width c
unfolding utf8
bytes_pos c = ground arith

-- a text can be cut at a byte where one of its characters ends
truncate-cut :
    (s : Text) (n k : ℕ) → length (utf8 (take k s)) ≡ n → (t : Text) × (truncate n s ≡ some t)
unfolding truncate utf8
truncate-cut [] n k e = ([], refl)
truncate-cut (c ∷ s) n zero e = ([], ground (arith, e))
truncate-cut (c ∷ s) n (suc k) e =
    let split = bytes_cons c (take k s) in
    let (t, ih) = truncate-cut s (n - width c) k (omega (arith, e, split)) in
    let some_left : (n == 0) ≡ false = ground (arith, e, split, bytes_pos c) in
    let fits : leb (width c) n ≡ true = ground (arith, e, split) in
    (c ∷ t, rw some_left (rw fits (rw ih refl)))

extend-some : (c : ℕ) (o : Option Text) (t : Text) → extend c o ≡ some t → (u : Text) × (o ≡ some u)
extend-some c none t h = absurd (ground (arith, h))
extend-some c (some u) t h = (u, refl)

bytes_nil : length (utf8 []) ≡ 0
unfolding utf8
bytes_nil = refl

bytes_next :
    (c : ℕ) (s : Text) (n k : ℕ)
    → leb (width c) n ≡ true
    → length (utf8 (take k s)) ≡ n - width c
    → length (utf8 (take (suc k) (c ∷ s))) ≡ n
bytes_next c s n k fits h = let split = bytes_cons c (take k s) in ground (arith, fits, h, split)

length-le-bytes : (s : Text) → length s ≤ length (utf8 s)
length-le-bytes [] = omega arith
length-le-bytes (c ∷ s) =
    let split = bytes_cons c s in omega (arith, split, bytes_pos c, length-le-bytes s)

-- where a text with enough bytes is cut, one of its characters ends
cut-truncate :
    (s : Text) (n : ℕ) (t : Text)
    → truncate n s ≡ some t
    → n ≤ length (utf8 s)
    → (k : ℕ) × (length (utf8 (take k s)) ≡ n)
unfolding truncate
cut-truncate [] n t h enough = (0, omega (arith, bytes_nil, enough))
cut-truncate (c ∷ s) n t h enough = elim (Bool-cases (n == 0)) [
  | inl z ↦ (0, ground (arith, bytes_nil, z))
  | inr nz ↦ elim (Bool-cases (leb (width c) n)) [
    | inl fits ↦
        let (u, e) = extend-some c (truncate (n - width c) s) t (rw (nz, fits) at h) in
        let (k, ih) = cut-truncate s (n - width c) u e (omega (arith, bytes_cons c s, enough)) in
        (suc k, bytes_next c s n k fits ih)
    | inr big ↦ absurd (ground (arith, rw (nz, big) at h))
  ]
]

-- no character ends at the byte
abbrev pub IsInside : ℕ → Text → Type 0
IsInside n s = (k : ℕ) → length (utf8 (take k s)) ≢ n

truncate-IsInside : (s : Text) (n : ℕ) → n ≤ length (utf8 s) → (truncate n s ≡ none) ↔ IsInside n s
truncate-IsInside s n enough = (forth, back (truncate n s) refl)
  where
    forth : truncate n s ≡ none → IsInside n s
    forth h k e = let (t, cut) = truncate-cut s n k e in absurd (ground (arith, h, cut))

    back : (o : Option Text) → truncate n s ≡ o → IsInside n s → o ≡ none
    back none e h = refl
    back (some t) e h = let (k, at) = cut-truncate s n t e enough in absurd (h k at)

-- when the name of an address cannot be shown
abbrev pub IsUnshown : Text → Type 0
IsUnshown name = (length name ≡ 0) ⊎ ((4 ≤ length name) × IsInside 2 name)

starred-none : (n : ℕ) (o : Option Text) → starred n o ≡ none → o ≡ none
starred-none n none h = refl
starred-none n (some t) h = absurd (ground (arith, h))

join-none : (domain : Text) (o : Option Text) → join domain o ≡ none → o ≡ none
join-none domain none h = refl
join-none domain (some t) h = absurd (ground (arith, h))

long_enough : (name : Text) → 4 ≤ length name → 2 ≤ length (utf8 name)
long_enough name h = omega (arith, length-le-bytes name)

new_name-IsUnshown : (name : Text) → new_name name ≡ none → IsUnshown name
unfolding new_name
new_name-IsUnshown name h = elim (Bool-cases (length name == 0)) [
  | inl z ↦ inl (ground (arith, z))
  | inr nz ↦ elim (Bool-cases (leb (length name) 3)) [
    | inl short ↦ absurd (ground (arith, h, nz, short))
    | inr long ↦
        let four : 4 ≤ length name = ground (arith, long) in
        let cut : starred (length name - 2) (truncate 2 name) ≡ none =
          ground (arith, h, nz, long) in
        inr (
          four,
          (truncate-IsInside name 2 (long_enough name four)).0
              (starred-none (length name - 2) (truncate 2 name) cut),
        )
  ]
]

IsUnshown-new_name : (name : Text) → IsUnshown name → new_name name ≡ none
unfolding new_name
IsUnshown-new_name name (inl z) = rw z refl
IsUnshown-new_name name (inr (four, inside)) =
    let cut = (truncate-IsInside name 2 (long_enough name four)).1 inside in
    let long : leb (length name) 3 ≡ false = ground (arith, four) in
    let some_left : leb 1 (length name) ≡ true = ground (arith, four) in
    let nz : (length name == 0) ≡ false = ground (arith, four) in
    rw (long, some_left, nz) (rw cut refl)

-- Obscuring an address whose domain has no at sign panics if and only if its name is empty, or has four
-- characters or more and its second byte is not the last of one of them.
pub obscure_email-eq-none :
    (name domain : Text)
    → has_no_at domain ≡ true
    → (obscure_email (name ++ b'@' ∷ domain) ≡ none) ↔ IsUnshown name
unfolding obscure_email
obscure_email-eq-none name domain h =
    let parts = rsplit_lem name domain h in
    (
      λ e. new_name-IsUnshown name (join-none domain (new_name name) (rw parts at e)),
      λ u. rw parts (rw (IsUnshown-new_name name u) refl),
    )
