-- ===== src/Runtime/Registry/Indexes.antt =====
-- What detaching and attaching a market's names do to an index.
use fdv.Base.{
  String, true, false, ◌≡◌, refl, ◌≢◌, ◌⊎◌, inl, inr, some, List, [], ◌∷◌, arith, ◌==◌, string_eq,
  same_text?, if◌then◌else◌, Bool-cases, Option-cases,
}
use fdv.Base.Dict.{Dict, lookup, insert, erase, lookup-insert, lookup-erase}
use fdv.Runtime.Registry.{contains, detach, attach}

-- One name freed.
abbrev freed : String → String → Dict String String → Dict String String
freed c name index = if same_text? (lookup name index) (some c) then erase name index else index

freed-some :
    (c name t : String) {d : String} (index : Dict String String)
    → lookup t (freed c name index) ≡ some d
    → (lookup t index ≡ some d) × (name ≡ t → d ≢ c)
freed-some c name t {d} index h = elim (Option-cases (lookup name index)) [
  | inl e ↦ let kept : lookup t index ≡ some d = ground arith in (kept, λ p q. cc)
  | inr (x, e) ↦ elim (Bool-cases (x == c)) [
    | inl hit ↦
        let gone : lookup t (erase name index) ≡ some d = ground arith in
        ground (arith, lookup-erase name t index, string_eq.same_iff name t)
    | inr miss ↦
        let kept : lookup t index ≡ some d = ground arith in
        (kept, λ p q. ground (arith, string_eq.same_iff x c))
  ]
]

freed_ne :
    (c name t : String) {d : String} (index : Dict String String)
    → lookup t index ≡ some d
    → d ≢ c
    → lookup t (freed c name index) ≡ some d
freed_ne c name t {d} index h n = elim (Option-cases (lookup name index)) [
  | inl e ↦ ground arith
  | inr (x, e) ↦
      ground (arith, lookup-erase name t index, string_eq.same_iff name t, string_eq.same_iff x c)
]

-- What is left of an index was there, and the market's names no longer lead to it.
pub detach-some :
    (c : String) (names : List String) (t : String) {d : String} (index : Dict String String)
    → lookup t (detach c names index) ≡ some d
    → (lookup t index ≡ some d) × (contains t names ≡ true → d ≢ c)
unfolding detach
detach-some c [] t index h = (h, λ e. cc)
detach-some c (name ∷ names) t index h =
    let (rest, apart) = detach-some c names t (freed c name index) h in
    let (old, differs) = freed-some c name t index rest in (old, split apart differs)
  where
    split :
        {d : String}
        → (contains t names ≡ true → d ≢ c)
        → (name ≡ t → d ≢ c)
        → contains t (name ∷ names) ≡ true
        → d ≢ c
    split apart differs e = elim (Bool-cases (name == t)) [
      | inl hit ↦ differs ((string_eq.same_iff name t).0 hit)
      | inr miss ↦ apart (rw miss at e)
    ]

-- An entry that is not the market's stays.
pub detach_ne :
    (c : String) (names : List String) (t : String) {d : String} (index : Dict String String)
    → lookup t index ≡ some d
    → d ≢ c
    → lookup t (detach c names index) ≡ some d
unfolding detach
detach_ne c [] t index h n = h
detach_ne c (name ∷ names) t {d} index h n =
    detach_ne c names t (freed c name index) (freed_ne c name t index h n) n

pub attach-some :
    (c : String) (names : List String) (t : String) {d : String} (index : Dict String String)
    → lookup t (attach c names index) ≡ some d
    → ((contains t names ≡ true) × (d ≡ c)) ⊎ (lookup t index ≡ some d)
unfolding attach
attach-some c [] t index h = inr h
attach-some c (name ∷ names) t {d} index h =
    ground
      (arith, attach-some c names t {d = d} (insert name c index), lookup-insert name t c index)

attach_same :
    (c : String) (names : List String) (t : String) (index : Dict String String)
    → lookup t index ≡ some c
    → lookup t (attach c names index) ≡ some c
unfolding attach
attach_same c [] t index h = h
attach_same c (name ∷ names) t index h =
    attach_same c names t (insert name c index) (ground (arith, lookup-insert name t c index))

-- Each of the market's names leads to it.
pub attach_self :
    (c : String) (names : List String) (t : String) (index : Dict String String)
    → contains t names ≡ true
    → lookup t (attach c names index) ≡ some c
unfolding attach
attach_self c [] t index h = cc
attach_self c (name ∷ names) t index h = elim (Bool-cases (contains t names)) [
  | inl later ↦ attach_self c names t (insert name c index) later
  | inr last ↦
      attach_same c names t (insert name c index) (ground (arith, lookup-insert name t c index))
]

-- A name that is not the market's leads where it led.
pub attach_other :
    (c : String) (names : List String) (t : String) (index : Dict String String)
    → contains t names ≡ false
    → lookup t (attach c names index) ≡ lookup t index
unfolding attach
attach_other c [] t index h = refl
attach_other c (name ∷ names) t index h =
    ground (arith, attach_other c names t (insert name c index), lookup-insert name t c index)
