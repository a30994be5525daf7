-- ===== src/Ctags/Duplicates.antt =====
-- Which prototypes are left after the passes.
use arduino_cli_android.Prelude.{
  Bool, true, false, not, ◌&&◌, ◌||◌, List, [], ◌∷◌, ◌==◌, nat_eq, list_eq, list_beq_iff,
  if◌then◌else◌, member, Uniq, ◌≡◌, refl, arith, Bool-cases, inl, inr, ◌∙◌, sym, ap, beq_refl, ◌↔◌,
  Elem, false≢true,
}
use arduino_cli_android.Strings.{Text, codes}
use arduino_cli_android.Ctags.{
  Tag, defined_prototypes, skip_defined, remove_defined_protypes, skip_seen, skip_duplicates,
}

-- The prototypes of the tags that are not skipped, in order.
unfoldable pub active : List Tag → List Text
active [] = []
active (tag ∷ tags) = let rest = active tags in if tag.skip_me then rest else tag.prototype ∷ rest

seen_both : (p q : Text) (seen : List Text) → (p == q) ≡ true → member p seen ≡ member q seen
seen_both p q seen e = ap (λ (r : Text). member r seen) ((list_beq_iff p q).0 e)

-- The test of `skipDuplicates`, and what a round of it leaves.
abbrev is_first : List Text → Tag → Bool
is_first seen tag = not (member tag.prototype seen) && not tag.skip_me

first→ :
    (seen : List Text) (tag : Tag)
    → is_first seen tag ≡ true
    → (tag.skip_me ≡ false) × (member tag.prototype seen ≡ false)
first→ seen tag h = (ground (arith, h), ground (arith, h))

active-first :
    (seen : List Text) (tag : Tag) (tags : List Tag)
    → is_first seen tag ≡ true
    → active (skip_seen seen (tag ∷ tags))
      ≡ tag.prototype ∷ active (skip_seen (tag.prototype ∷ seen) tags)
unfolding skip_seen active
active-first seen tag tags h = rw (h, (first→ seen tag h).0) refl

active-other :
    (seen : List Text) (tag : Tag) (tags : List Tag)
    → is_first seen tag ≡ false
    → active (skip_seen seen (tag ∷ tags)) ≡ active (skip_seen seen tags)
unfolding skip_seen active
active-other seen tag tags h = rw h refl

active-kept :
    (tag : Tag) (tags : List Tag)
    → tag.skip_me ≡ false
    → active (tag ∷ tags) ≡ tag.prototype ∷ active tags
unfolding active
active-kept tag tags h = rw h refl

active-skipped :
    (tag : Tag) (tags : List Tag) → tag.skip_me ≡ true → active (tag ∷ tags) ≡ active tags
unfolding active
active-skipped tag tags h = rw h refl

-- A tag that is no first is skipped already, or its prototype was seen.
no_first :
    (p : Text) (seen : List Text) (tag : Tag) (tags : List Tag)
    → is_first seen tag ≡ false
    → (member p (active (tag ∷ tags)) && not (member p seen))
      ≡ (member p (active tags) && not (member p seen))
no_first p seen tag tags h = elim (Bool-cases tag.skip_me) [
  | inl skipped ↦ rw (active-skipped tag tags skipped) refl
  | inr kept ↦
      let was_seen : member tag.prototype seen ≡ true = ground (arith, h, kept) in
      rw (active-kept tag tags kept) (elim (Bool-cases (tag.prototype == p)) [
        | inl same ↦
            let s : member p seen ≡ true = sym (seen_both tag.prototype p seen same) ∙ was_seen in
            ground (arith, s)
        | inr other ↦ ground (arith, other)
      ])
]

member-skip_seen :
    (p : Text) (seen : List Text) (tags : List Tag)
    → member p (active (skip_seen seen tags)) ≡ (member p (active tags) && not (member p seen))
unfolding skip_seen active
member-skip_seen p seen [] = refl
member-skip_seen p seen (tag ∷ tags) =
    let ih = member-skip_seen p seen tags in
    let ih' = member-skip_seen p (tag.prototype ∷ seen) tags in
    elim (Bool-cases (is_first seen tag)) [
      | inl first ↦
          let (kept, unseen) = first→ seen tag first in
          ap (member p) (active-first seen tag tags first)
          ∙ (with_head (tag.prototype == p)
                (member p (active (skip_seen (tag.prototype ∷ seen) tags))) (member p (active tags))
                (member p seen) ih' (λ same. sym (seen_both tag.prototype p seen same) ∙ unseen)
              ∙ ap (λ (ps : List Text). member p ps && not (member p seen))
                  (sym (active-kept tag tags kept)))
      | inr other ↦
          ap (member p) (active-other seen tag tags other)
          ∙ (ih ∙ sym (no_first p seen tag tags other))
    ]
  where
    with_head :
        (same left before s : Bool)
        → left ≡ (before && not (same || s))
        → (same ≡ true → s ≡ false)
        → (same || left) ≡ ((same || before) && not s)
    with_head same left before s e f = ground (arith, e, f)

Uniq-skip_seen : (seen : List Text) (tags : List Tag) → Uniq (active (skip_seen seen tags))
unfolding skip_seen active
Uniq-skip_seen seen [] = tt
Uniq-skip_seen seen (tag ∷ tags) = elim (Bool-cases (is_first seen tag)) [
  | inl first ↦
      let absent : member tag.prototype (active (skip_seen (tag.prototype ∷ seen) tags)) ≡ false =
        ground (
          arith,
          member-skip_seen tag.prototype (tag.prototype ∷ seen) tags,
          beq_refl tag.prototype,
        ) in
      rw (active-first seen tag tags first) (absent, Uniq-skip_seen (tag.prototype ∷ seen) tags)
  | inr other ↦ rw (active-other seen tag tags other) (Uniq-skip_seen seen tags)
]

-- After `skipDuplicates` no two tags that are left have the same prototype, and exactly the
-- prototypes are left that were there before.
pub skip_duplicates-Uniq :
    (tags : List Tag)
    → Uniq (active (skip_duplicates tags))
      × ((p : Text) → member p (active (skip_duplicates tags)) ≡ member p (active tags))
unfolding skip_duplicates
skip_duplicates-Uniq tags =
    (Uniq-skip_seen [] tags, λ p. member-skip_seen p [] tags ∙ and_true (member p (active tags)))
  where
    and_true : (b : Bool) → (b && true) ≡ b
    and_true true = refl
    and_true false = refl

member-skip_defined :
    (p : Text) (defined : List Text) (tags : List Tag)
    → member p (active (skip_defined defined tags))
      ≡ (member p (active tags) && not (member p defined))
unfolding skip_defined active
member-skip_defined p defined [] = refl
member-skip_defined p defined (tag ∷ tags) =
    let ih = member-skip_defined p defined tags in
    elim (Bool-cases (member tag.prototype defined)) [
      | inl declared ↦
          rw declared (ih ∙ sym (no_first p defined tag tags (ground (arith, declared))))
      | inr free ↦ elim (Bool-cases tag.skip_me) [
        | inl skipped ↦ rw (free, skipped) ih
        | inr kept ↦
            rw (free, kept)
              (with_free (tag.prototype == p) (member p (active (skip_defined defined tags)))
                (member p (active tags)) (member p defined) ih
                (λ same. sym (seen_both tag.prototype p defined same) ∙ free))
      ]
    ]
  where
    with_free :
        (same left before s : Bool)
        → left ≡ (before && not s)
        → (same ≡ true → s ≡ false)
        → (same || left) ≡ ((same || before) && not s)
    with_free same left before s e f = ground (arith, e, f)

-- A tag of the list, skipped or not, is a declaration of the prototype.
abbrev pub IsDeclared : Text → List Tag → Type 0
IsDeclared p tags =
    (tag : Tag) × Elem tag tags × (tag.kind ≡ codes "prototype") × (tag.prototype ≡ p)

defined_iff :
    (p : Text) (tags : List Tag) → (member p (defined_prototypes tags) ≡ true) ↔ IsDeclared p tags
unfolding defined_prototypes
defined_iff p [] = (λ h. cc h, λ h. absurd h.1)
defined_iff p (tag ∷ tags) =
    let (forth, back) = defined_iff p tags in
    let kind_iff = list_beq_iff tag.kind (codes "prototype") in
    let same_iff = list_beq_iff tag.prototype p in
    elim (Bool-cases (tag.kind == codes "prototype")) [
      | inl declares ↦ rw declares (
        λ h. elim (Bool-cases (tag.prototype == p)) [
          | inl same ↦ (tag, inl refl, kind_iff.0 declares, same_iff.0 same)
          | inr other ↦ later tag (forth (ground (arith, h, other)))
        ],
        λ (u, m, k, e). elim m [
          | inl here ↦ ground (arith, same_iff.1 (ap (λ (t : Tag). t.prototype) (sym here) ∙ e))
          | inr there ↦ ground (arith, back (u, there, k, e))
        ],
      )
      | inr other ↦ rw other (
        λ h. later tag (forth h),
        λ (u, m, k, e). elim m [
          | inl here ↦
              absurd (false≢true (sym other ∙ kind_iff.1 (ap (λ (t : Tag). t.kind) (sym here) ∙ k)))
          | inr there ↦ back (u, there, k, e)
        ],
      )
    ]
  where
    later : (tag : Tag) → IsDeclared p tags → IsDeclared p (tag ∷ tags)
    later tag (u, m, k, e) = (u, inr m, k, e)

-- After `removeDefinedProtypes` exactly the prototypes are left that were there and that no tag of
-- the kind `prototype` declares.
pub member-remove_defined_protypes :
    (p : Text) (tags : List Tag)
    → (member p (active (remove_defined_protypes tags)) ≡ true)
      ↔ ((member p (active tags) ≡ true) × ¬ IsDeclared p tags)
unfolding remove_defined_protypes
member-remove_defined_protypes p tags =
    let e = member-skip_defined p (defined_prototypes tags) tags in
    let (forth, back) = defined_iff p tags in
    (
      λ h. (
        ground (arith, e, h),
        λ declared. absurd (false≢true (sym (ground (arith, e, h)) ∙ back declared)),
      ),
      λ h. elim (Bool-cases (member p (defined_prototypes tags))) [
        | inl defined ↦ absurd (h.1 (forth defined))
        | inr free ↦ e ∙ ground (arith, h.0, free)
      ],
    )
