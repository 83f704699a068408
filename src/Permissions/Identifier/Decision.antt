-- ===== src/Permissions/Identifier/Decision.antt =====
-- `isPolicyIdentifier` decides the grammar.
use mathlib.Core.Option
use ntauth.Common.{
  ℕ, suc, ◌-◌, ◌≤◌, ◌<◌, ◌≡◌, refl, sym, subst, ap, ◌∙◌, ◌↔◌, ◌≢◌, inl, inr, Bool, true, false,
  ◌&&◌, ◌||◌, List, [], ◌∷◌, Option, none, some, arith, Bool-cases, and_iff, All, all_iff, length,
  leb, ltb, filter,
}
use ntauth.Text.{Text, ◌===◌, split}
use ntauth.Text.Laws.{===_iff}
use ntauth.Text.Split.{Lacks, join, split-join, join_all-split}
use ntauth.Permissions.Identifier.{
  IdentifierKind, action, resource, star, index_of, index_is, segment_pattern, segments_ok,
  service_pattern, bounded_pattern, is_policy_identifier, is_lower, name_unit, resource_first,
  resource_unit, service_of, segments_of, length_ok,
}
use ntauth.Permissions.Identifier.Grammar.{
  Lower, NameUnit, Alphanumeric, ResourceUnit, Word, Name, Segment, Segments, IsIdentifier,
}

bounded_pattern_iff :
    (first rest : ℕ → Bool) (First Rest : ℕ → Type 0) (most : ℕ)
    → ((c : ℕ) → (first c ≡ true) ↔ First c)
    → ((c : ℕ) → (rest c ≡ true) ↔ Rest c)
    → (s : Text) → (bounded_pattern first rest most s ≡ true) ↔ Word First Rest most s
bounded_pattern_iff first rest First Rest most f r [] = ground arith
bounded_pattern_iff first rest First Rest most f r (c ∷ s) =
    ground (arith, f c, all_iff rest Rest r s)

Lower-iff : (c : ℕ) → (is_lower c ≡ true) ↔ Lower c
Lower-iff c = ground arith

name_unit_iff : (c : ℕ) → (name_unit c ≡ true) ↔ NameUnit c
name_unit_iff c = ground arith

resource_first_iff : (c : ℕ) → (resource_first c ≡ true) ↔ Alphanumeric c
resource_first_iff c = ground arith

resource_unit_iff : (c : ℕ) → (resource_unit c ≡ true) ↔ ResourceUnit c
resource_unit_iff c = ground (arith, resource_first_iff c)

service_pattern_iff : (s : Text) → (service_pattern s ≡ true) ↔ Name s
unfolding service_pattern
service_pattern_iff s =
    bounded_pattern_iff is_lower name_unit Lower NameUnit 62 Lower-iff name_unit_iff s

segment_pattern_iff :
    (kind : IdentifierKind) (s : Text) → (segment_pattern kind s ≡ true) ↔ Segment kind s
unfolding segment_pattern
segment_pattern_iff action s =
    bounded_pattern_iff is_lower name_unit Lower NameUnit 62 Lower-iff name_unit_iff s
segment_pattern_iff resource s =
    bounded_pattern_iff resource_first resource_unit Alphanumeric ResourceUnit 127
      resource_first_iff resource_unit_iff s

Segment-ne-star : (kind : IdentifierKind) (s : Text) → Segment kind s → s ≢ star
Segment-ne-star action [] h = absurd h
Segment-ne-star action (c ∷ s) h = λ e. ground arith
Segment-ne-star resource [] h = absurd h
Segment-ne-star resource (c ∷ s) h = λ e. ground arith

segments_ok-single :
    (kind : IdentifierKind) (s : Text)
    → segments_ok kind (s ∷ []) ≡ (s === star || segment_pattern kind s)
unfolding segments_ok index_of
segments_ok-single kind s = ground arith

segments_ok-star :
    (kind : IdentifierKind) (s t : Text) (more : List Text)
    → (s === star) ≡ true
    → segments_ok kind (s ∷ t ∷ more) ≡ false
unfolding segments_ok index_of
segments_ok-star kind s t more e = rw e (ground arith)

index_is-suc : (o : Option ℕ) (n : ℕ) → index_is (Option.map suc o) (suc n) ≡ index_is o n
index_is-suc none n = refl
index_is-suc (some i) n = ground arith

index_of-cons :
    (x s : Text) (l : List Text)
    → (s === x) ≡ false
    → index_of x (s ∷ l) ≡ Option.map suc (index_of x l)
unfolding index_of
index_of-cons x s l e = rw e

ltb-suc : (n : ℕ) → ltb 0 (suc n) ≡ true
ltb-suc n = ground arith

regroup :
    (n m : ℕ) (p q r s : Bool)
    → (ltb 0 (suc n) && (p && q && (r && s))) ≡ (p && (ltb 0 (suc m) && (q && (r && s))))
regroup n m true q r s = rw (ltb-suc n, ltb-suc m)
regroup n m false q r s = rw (ltb-suc n)

segments_ok-cons :
    (kind : IdentifierKind) (s t : Text) (more : List Text)
    → (s === star) ≡ false
    → segments_ok kind (s ∷ t ∷ more) ≡ (segment_pattern kind s && segments_ok kind (t ∷ more))
unfolding segments_ok
segments_ok-cons kind s t more e =
    let shift : suc (suc (length more)) - 1 ≡ suc (suc (length more) - 1) = omega arith in
    rw (e, index_of-cons star s (t ∷ more) e, shift, index_is-suc)
      (regroup _ (length more) (segment_pattern kind s) _
        (index_is (index_of star (t ∷ more)) (suc (length more) - 1))
        (leb (length (filter (λ x. x === star) (t ∷ more))) 1))

segments_ok_nil : (kind : IdentifierKind) → (segments_ok kind [] ≡ true) ↔ ⊥
unfolding segments_ok
segments_ok_nil kind = ground arith

segments_ok_iff :
    (kind : IdentifierKind) (segments : List Text)
    → (segments_ok kind segments ≡ true) ↔ Segments kind segments
segments_ok_iff kind [] = segments_ok_nil kind
segments_ok_iff kind (s ∷ []) =
    rw (segments_ok-single kind s) (ground (arith, segment_pattern_iff kind s, ===_iff s star))
segments_ok_iff kind (s ∷ t ∷ more) = elim (Bool-cases (s === star)) [
  | inl e ↦
      rw (segments_ok-star kind s t more e) (ground (arith, Segment-ne-star kind s, ===_iff s star))
  | inr e ↦
      rw (segments_ok-cons kind s t more e)
        (ground (arith, segment_pattern_iff kind s, segments_ok_iff kind (t ∷ more)))
]

All-Lacks : (P : ℕ → Type 0) → ((c : ℕ) → P c → c ≢ b':') → (s : Text) → All P s → Lacks b':' s
All-Lacks P away [] h = tt
All-Lacks P away (c ∷ s) h = (away c h.0, All-Lacks P away s h.1)

Word-Lacks :
    (First Rest : ℕ → Type 0) (most : ℕ)
    → ((c : ℕ) → First c → c ≢ b':')
    → ((c : ℕ) → Rest c → c ≢ b':')
    → (s : Text) → Word First Rest most s
    → Lacks b':' s
Word-Lacks First Rest most f r [] h = absurd h
Word-Lacks First Rest most f r (c ∷ s) h = (f c h.0, All-Lacks Rest r s h.1)

Name-Lacks : (s : Text) → Name s → Lacks b':' s
Name-Lacks s h = Word-Lacks Lower NameUnit 62 (λ c p. ground arith) (λ c p. ground arith) s h

Segment-Lacks : (kind : IdentifierKind) (s : Text) → Segment kind s → Lacks b':' s
Segment-Lacks action s h = Name-Lacks s h
Segment-Lacks resource s h =
    Word-Lacks Alphanumeric ResourceUnit 127 (λ c p. ground arith) (λ c p. ground arith) s h

star-Lacks : Lacks b':' star
star-Lacks = (omega arith, tt)

Segments-Lacks :
    (kind : IdentifierKind) (segments : List Text)
    → Segments kind segments
    → All (Lacks b':') segments
Segments-Lacks kind [] h = absurd h
Segments-Lacks kind (s ∷ []) (inl e) = (subst (Lacks b':') (sym e) star-Lacks, tt)
Segments-Lacks kind (s ∷ []) (inr h) = (Segment-Lacks kind s h, tt)
Segments-Lacks kind (s ∷ t ∷ more) h =
    (Segment-Lacks kind s h.0, Segments-Lacks kind (t ∷ more) h.1)

join-pos : (s : Text) (segments : List Text) → Name s → 0 < length (join b':' s segments)
unfolding join
join-pos [] segments h = absurd h
join-pos (c ∷ s) [] h = omega arith
join-pos (c ∷ s) (t ∷ more) h = omega arith

decided :
    (kind : IdentifierKind) (value service : Text) (segments : List Text)
    → split b':' value ≡ service ∷ segments
    → 0 < length value
    → length value ≤ 256
    → Name service
    → Segments kind segments
    → is_policy_identifier value kind none ≡ true
unfolding is_policy_identifier
decided kind value service segments e pos short named placed =
    let fits : length_ok value ≡ true = ground arith in
    rw fits
      (rw e (rw ((service_pattern_iff service).1 named) ((segments_ok_iff kind segments).1 placed)))

-- `isPolicyIdentifier(value, kind)` accepts exactly the texts of at most 256 code units that the
-- grammar of identifiers generates: a service name and segments joined by colons, with a wildcard
-- nowhere but in the last place.
pub is_policy_identifier_iff :
    (kind : IdentifierKind) (value : Text)
    → (is_policy_identifier value kind none ≡ true) ↔ IsIdentifier kind value
unfolding is_policy_identifier
is_policy_identifier_iff kind value = (
  λ h. elim (Bool-cases (length_ok value)) [
    | inl fits ↦
        let (named, placed) = (and_iff _ _).0 (rw fits at h) in
        record {
          service = service_of value;
          segments = segments_of value;
          written = sym (join_all-split b':' value);
          named = (service_pattern_iff _).0 named;
          placed = (segments_ok_iff kind _).0 placed;
          short = ground arith;
        }
    | inr long ↦ absurd (ground arith)
  ],
  λ g.
      let split_eq : split b':' value ≡ g.service ∷ g.segments =
        ap (split b':') g.written
        ∙ split-join b':' g.service g.segments (Name-Lacks g.service g.named)
            (Segments-Lacks kind g.segments g.placed) in
      let pos : 0 < length value =
        subst (λ x. 0 < length x) (sym g.written) (join-pos g.service g.segments g.named) in
      decided kind value g.service g.segments split_eq pos g.short g.named g.placed,
)
