-- ===== src/Catalog/Slugs.antt =====
-- `_unique_slug` of store_service.py: its loop, and the slug that it finds.
use marketplace_invite_only.Common.{
  ◌≡◌, ◌≢◌, refl, sym, ◌∙◌, ℕ, zero, suc, ◌≤◌, ◌<◌, true, false, Option, some, List, [], ◌∷◌, ◌==◌,
  Bool-cases, inl, inr, arith,
}
use marketplace_invite_only.Common.Tables.{find, find-remove, length, remove, delete_where}
use marketplace_invite_only.Models.{Store}
use marketplace_invite_only.Catalog.Stores.{
  Text, slug_in_use, candidate, unique_slug_from, unique_slug,
}

abbrev at_slug : ℕ → List Store → Option Store
at_slug = find (λ (s : Store). s.slug)

-- Taking out the stores with a slug that is in use makes the list shorter.
length_le-remove :
    (slug : ℕ) (stores : List Store)
    → length (remove (λ (s : Store). s.slug) slug stores) ≤ length stores
unfolding length delete_where
length_le-remove slug [] = omega arith
length_le-remove slug (s ∷ stores) = ground (arith, length_le-remove slug stores)

length-remove :
    (slug : ℕ) (stores : List Store)
    → slug_in_use slug stores ≡ true
    → length (remove (λ (s : Store). s.slug) slug stores) < length stores
unfolding length delete_where find
length-remove slug [] h = absurd (ground arith)
length-remove slug (s ∷ stores) h =
    ground (arith, length-remove slug stores, length_le-remove slug stores, h)

module _ (text : Text)
    (numbered-injective : (base j k : ℕ) → text.numbered base j ≡ text.numbered base k → j ≡ k)
    (numbered-new : (base k : ℕ) → text.numbered base k ≢ base) where
  candidate-injective : (base j k : ℕ) → candidate text base j ≡ candidate text base k → j ≡ k
  candidate-injective base zero zero h = refl
  candidate-injective base zero (suc k) h = absurd (numbered-new base (suc k) (sym h))
  candidate-injective base (suc j) zero h = absurd (numbered-new base (suc j) h)
  candidate-injective base (suc j) (suc k) h = numbered-injective base (suc j) (suc k) h

  still :
      (base suffix j : ℕ) (stores left : List Store)
      → suc suffix ≤ j
      → slug_in_use (candidate text base j) stores ≡ slug_in_use (candidate text base j) left
      → slug_in_use (candidate text base j) stores
        ≡ slug_in_use
            (candidate text base j)
            (remove (λ (s : Store). s.slug) (candidate text base suffix) left)
  still base suffix j stores left later same =
      let other : (candidate text base j == candidate text base suffix) ≡ false =
        elim (Bool-cases (candidate text base j == candidate text base suffix)) [
          | inl e ↦
              let equal : j ≡ suffix = candidate-injective base j suffix (ground (arith, e)) in
              absurd (omega (arith, equal))
          | inr e ↦ e
        ] in
      ground (
        arith,
        other,
        same,
        find-remove (λ (s : Store). s.slug) (candidate text base j) (candidate text base suffix)
            left,
      )

  -- With more turns than there are stores whose slugs may still come up, the loop ends.
  loop-ends :
      (base suffix fuel : ℕ) (stores left : List Store)
      → length left < fuel
      → ((j : ℕ)
          → suffix ≤ j
          → slug_in_use (candidate text base j) stores ≡ slug_in_use (candidate text base j) left)
      → (slug : ℕ) × (unique_slug_from text base suffix fuel stores ≡ some slug)
        × (slug_in_use slug stores ≡ false)
  unfolding unique_slug_from
  loop-ends base suffix zero stores left h same = absurd (ground arith)
  loop-ends base suffix (suc fuel) stores left h same =
      elim (Bool-cases (slug_in_use (candidate text base suffix) stores)) [
        | inr e ↦ (candidate text base suffix, rw e refl, e)
        | inl e ↦
            let c = candidate text base suffix in
            let shorter = length-remove c left (sym (same suffix (omega arith)) ∙ e) in
            let (slug, found, free) =
              loop-ends base (suc suffix) fuel stores (remove (λ (s : Store). s.slug) c left)
                (omega (arith, shorter))
                λ j later. still base suffix j stores left later (same j (omega arith)) in
            (slug, rw e found, free)
      ]

  -- The search for a slug ends within the turns that it is given, whatever stores there are, and no
  -- store has the slug that it finds. Numbered slugs of one base differ from one another and from it.
  pub unique_slug-free :
      (base : ℕ) (stores : List Store)
      → (slug : ℕ) × (unique_slug text base stores ≡ some slug) × (slug_in_use slug stores ≡ false)
  unfolding unique_slug
  unique_slug-free base stores =
      loop-ends base 0 (suc (length stores)) stores stores (omega arith) λ j later. refl
