-- ===== src/Base/Dict.antt =====
-- Python's `dict`: an association list in insertion order, over keys with a decided equality.
use mathlib.Core.Path.{◌≡◌, refl, ◌∙◌}
use mathlib.Core.Option.{Option, none, some}
use mathlib.Core.List.{List, [], ◌∷◌, map}
use mathlib.Core.Logic.{◌≢◌, inl, inr}
use native.Mathlib.Omega.{arith}
use Prim.Native.Nat.{suc}
use fdv.Base.Tests.{if◌then◌else◌, Bool-cases}
use fdv.Base.Lists.{All, find_by, length}
use fdv.Base.Equality.{HasEq, ◌==◌}

abbrev pub Dict {ℓ κ} : Type ℓ → Type κ → Type (ℓ ⊔ κ)
Dict K V = List (K × V)

module _ {ℓ κ} {K : Type ℓ} {V : Type κ} ⦃e : HasEq K⦄ where
  -- `d.get(k)`
  unfoldable pub lookup : K → Dict K V → Option V
  lookup k [] = none
  lookup k ((j, v) ∷ d) = if j == k then some v else lookup k d

  -- `d[k] = v`: a new key goes to the end, an old one keeps its place.
  unfoldable pub insert : K → V → Dict K V → Dict K V
  insert k v [] = (k, v) ∷ []
  insert k v ((j, w) ∷ d) = if j == k then (j, v) ∷ d else (j, w) ∷ insert k v d

  -- `d.pop(k, None)`
  unfoldable pub erase : K → Dict K V → Dict K V
  erase k [] = []
  erase k ((j, w) ∷ d) = let rest = erase k d in if j == k then rest else (j, w) ∷ rest

  abbrev pub values : Dict K V → List V
  values = map (λ p. p.1)

  pub lookup-insert :
      (k j : K) (v : V) (d : Dict K V)
      → lookup j (insert k v d) ≡ (if k == j then some v else lookup j d)
  unfolding lookup insert
  lookup-insert k j v [] = refl
  lookup-insert k j v ((i, w) ∷ d) =
      ground (arith, e.same_iff k j, e.same_iff i k, e.same_iff i j, lookup-insert k j v d)

  pub lookup-erase :
      (k j : K) (d : Dict K V) → lookup j (erase k d) ≡ (if k == j then none else lookup j d)
  unfolding lookup erase
  lookup-erase k j [] = ground arith
  lookup-erase k j ((i, w) ∷ d) =
      ground (arith, e.same_iff k j, e.same_iff i k, e.same_iff i j, lookup-erase k j d)

  pub lookup-insert_self : (k : K) (v : V) (d : Dict K V) → lookup k (insert k v d) ≡ some v
  lookup-insert_self k v d = ground (arith, lookup-insert k k v d, e.same_iff k k)

  pub lookup-insert_ne :
      (k j : K) (v : V) (d : Dict K V) → k ≢ j → lookup j (insert k v d) ≡ lookup j d
  lookup-insert_ne k j v d h = ground (arith, lookup-insert k j v d, e.same_iff k j)

  pub lookup-erase_self : (k : K) (d : Dict K V) → lookup k (erase k d) ≡ none
  lookup-erase_self k d = ground (arith, lookup-erase k k d, e.same_iff k k)

  pub lookup-erase_ne : (k j : K) (d : Dict K V) → k ≢ j → lookup j (erase k d) ≡ lookup j d
  lookup-erase_ne k j d h = ground (arith, lookup-erase k j d, e.same_iff k j)

  -- Each entry stands under the key that its value names.
  abbrev pub KeyedBy : (V → K) → Dict K V → Type ℓ
  KeyedBy key = All (λ p. p.0 ≡ key p.1)

  pub insert-KeyedBy :
      (key : V → K) (k : K) (v : V) (d : Dict K V)
      → k ≡ key v
      → KeyedBy key d
      → KeyedBy key (insert k v d)
  unfolding insert
  insert-KeyedBy key k v [] h all = (h, tt)
  insert-KeyedBy key k v ((j, w) ∷ d) h all = elim (Bool-cases (j == k)) [
    | inl hit ↦ rw hit ((e.same_iff j k).0 hit ∙ h, all.1)
    | inr miss ↦ rw miss (all.0, insert-KeyedBy key k v d h all.1)
  ]

  pub erase-KeyedBy : (key : V → K) (k : K) (d : Dict K V) → KeyedBy key d → KeyedBy key (erase k d)
  unfolding erase
  erase-KeyedBy key k [] all = tt
  erase-KeyedBy key k ((j, w) ∷ d) all = elim (Bool-cases (j == k)) [
    | inl hit ↦ rw hit (erase-KeyedBy key k d all.1)
    | inr miss ↦ rw miss (all.0, erase-KeyedBy key k d all.1)
  ]

  -- A scan of the values for a key finds what the dict holds under it.
  pub find_by-values :
      (key : V → K) (k : K) (d : Dict K V)
      → KeyedBy key d
      → find_by (λ v. key v == k) (values d) ≡ lookup k d
  unfolding lookup
  find_by-values key k [] all = refl
  find_by-values key k ((j, w) ∷ d) all =
      rw (← all.0) (ground (arith, find_by-values key k d all.1))

  pub lookup-KeyedBy :
      (key : V → K) (k : K) (d : Dict K V) {v : V} → KeyedBy key d → lookup k d ≡ some v → key v ≡ k
  unfolding lookup
  lookup-KeyedBy key k [] all h = cc
  lookup-KeyedBy key k ((j, w) ∷ d) {v} all h = elim (Bool-cases (j == k)) [
    | inl hit ↦ let found : some w ≡ some v = rw hit at h in cc (all.0, (e.same_iff j k).0 hit)
    | inr miss ↦ lookup-KeyedBy key k d all.1 (rw miss at h)
  ]

  -- `{key(x): x for x in xs}`, over a dict that is there already.
  unfoldable pub index_by : (V → K) → Dict K V → List V → Dict K V
  index_by key d [] = d
  index_by key d (v ∷ rest) = index_by key (insert (key v) v d) rest

  pub index_by-KeyedBy :
      (key : V → K) (d : Dict K V) (vs : List V) → KeyedBy key d → KeyedBy key (index_by key d vs)
  unfolding index_by
  index_by-KeyedBy key d [] h = h
  index_by-KeyedBy key d (v ∷ rest) h =
      index_by-KeyedBy key (insert (key v) v d) rest (insert-KeyedBy key (key v) v d refl h)

-- No key stands twice.
module _ {ℓ κ} {K : Type ℓ} {V : Type κ} ⦃e : HasEq K⦄ where
  abbrev pub Distinct : Dict K V → Type κ
  Distinct [] = Unit
  Distinct ((k, v) ∷ d) = (lookup k d ≡ none) × Distinct d

  pub insert-Distinct : (k : K) (v : V) (d : Dict K V) → Distinct d → Distinct (insert k v d)
  unfolding insert lookup
  insert-Distinct k v [] h = (refl, tt)
  insert-Distinct k v ((j, w) ∷ d) h = elim (Bool-cases (j == k)) [
    | inl hit ↦ rw hit h
    | inr miss ↦ rw miss (
      ground (arith, lookup-insert k j v d, e.same_iff k j, e.same_iff j k, h.0),
      insert-Distinct k v d h.1,
    )
  ]

  pub length-insert_old :
      (k : K) (v : V) (d : Dict K V) {w : V}
      → lookup k d ≡ some w
      → length (insert k v d) ≡ length d
  unfolding insert lookup
  length-insert_old k v [] h = cc
  length-insert_old k v ((j, x) ∷ d) {w} h = ground (arith, length-insert_old k v d {w = w})

  pub length-insert_new :
      (k : K) (v : V) (d : Dict K V) → lookup k d ≡ none → length (insert k v d) ≡ suc (length d)
  unfolding insert lookup
  length-insert_new k v [] h = refl
  length-insert_new k v ((j, x) ∷ d) h = ground (arith, length-insert_new k v d)
