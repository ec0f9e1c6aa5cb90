-- ===== src/WandBuilder/RoundTrip.antt =====
-- The enumerator of a list reads what the partition of that list has.
use mathlib.Core.List.{append_assoc, append-nil}
use anytime_daat.Prelude.{
  ℕ, zero, suc, ◌^◌, ◌<◌, ◌≡◌, length, refl, sym, ap, subst, List, [], ◌∷◌, ◌++◌, none, some, map,
  get_or, get_elem?,
}
use anytime_daat.Cursor.{Block}
use anytime_daat.WandData.{Partition, max_element}
use anytime_daat.WandBuilder.{Builder, builder, add_sequence, add_sequences, get_enum}
use anytime_daat.WandBuilder.Flat.{
  offsets, flat, flat-snoc, offsets-snoc, slice-flat, narrow-offsets,
}

abbrev pub blocks_of : List Partition → List (List Block)
blocks_of ts = map (λ t. t.blocks) ts

abbrev pub ranges_of : List Partition → List (List (ℕ × ℕ))
ranges_of ts = map (λ t. t.ranges) ts

-- What the vectors are after the lists `ts`.
record Holds (ts : List Partition) (b : Builder) : Type 0 where
  max_term_weight : b.max_term_weight ≡ map (λ t. max_element t.blocks) ts
  blocks_start : b.blocks_start ≡ offsets 0 (blocks_of ts)
  blocks : b.blocks ≡ flat (blocks_of ts)
  ranges_start : b.ranges_start ≡ offsets 0 (ranges_of ts)
  ranges : b.ranges ≡ flat (ranges_of ts)

map-snoc {ℓ} :
    {A : Type ℓ} (f : Partition → A) (ts : List Partition) (t : Partition)
    → map f (ts ++ (t ∷ [])) ≡ map f ts ++ (f t ∷ [])
map-snoc f [] t = refl
map-snoc f (x ∷ ts) t = ap (λ r. f x ∷ r) (map-snoc f ts t)

add_sequence-Holds :
    (ts : List Partition) (b : Builder) (t : Partition)
    → Holds ts b
    → Holds (ts ++ (t ∷ [])) (add_sequence b t)
unfolding add_sequence
add_sequence-Holds ts b t h = record {
  max_term_weight = rw (h.max_term_weight) (sym (map-snoc (λ t. max_element t.blocks) ts t));
  blocks_start =
      rw (h.blocks_start, map-snoc (λ t. t.blocks) ts t)
        (sym (offsets-snoc 0 (blocks_of ts) t.blocks));
  blocks = rw (h.blocks, map-snoc (λ t. t.blocks) ts t) (sym (flat-snoc (blocks_of ts) t.blocks));
  ranges_start =
      rw (h.ranges_start, map-snoc (λ t. t.ranges) ts t)
        (sym (offsets-snoc 0 (ranges_of ts) t.ranges));
  ranges = rw (h.ranges, map-snoc (λ t. t.ranges) ts t) (sym (flat-snoc (ranges_of ts) t.ranges));
}

add_sequences-Holds :
    (us ts : List Partition) (b : Builder) → Holds us b → Holds (us ++ ts) (add_sequences b ts)
unfolding add_sequences
add_sequences-Holds us [] b h = rw (append-nil us) h
add_sequences-Holds us (t ∷ ts) b h =
    subst (λ vs. Holds vs (add_sequences (add_sequence b t) ts)) (append_assoc us (t ∷ []) ts)
      (add_sequences-Holds (us ++ (t ∷ [])) ts (add_sequence b t) (add_sequence-Holds us b t h))

builder-Holds : Holds [] builder
unfolding offsets flat
builder-Holds = record {
  max_term_weight = refl;
  blocks_start = refl;
  blocks = refl;
  ranges_start = refl;
  ranges = refl;
}

get_elem?-map {ℓ} :
    {A : Type ℓ} (f : Partition → A) (ts : List Partition) (i : ℕ) (t : Partition)
    → get_elem? ts i ≡ some t
    → get_elem? (map f ts) i ≡ some (f t)
get_elem?-map f [] i t e = cc
get_elem?-map f (x ∷ ts) zero t e = ap (λ o. elim o [ none ↦ none | some y ↦ some (f y) ]) e
get_elem?-map f (x ∷ ts) (suc i) t e = get_elem?-map f ts i t e

get_or-some : (xs : List ℕ) (i v : ℕ) → get_elem? xs i ≡ some v → get_or xs i 0 ≡ v
get_or-some [] i v e = cc
get_or-some (x ∷ xs) zero v e = cc
get_or-some (x ∷ xs) (suc i) v e = get_or-some xs i v e

-- After any number of lists were added, with fewer than 2 ^ 32 blocks and fewer than 2 ^ 32 ranges in
-- all, the enumerator of list `i` reads the blocks and the ranges of its partition, and the maximum
-- kept for the list is that of its blocks.
pub get_enum-add_sequences :
    (ts : List Partition) (i : ℕ) (t : Partition)
    → length (flat (blocks_of ts)) < 2 ^ 32
    → length (flat (ranges_of ts)) < 2 ^ 32
    → get_elem? ts i ≡ some t
    → ((get_enum (add_sequences builder ts) i).blocks ≡ t.blocks)
      × ((get_enum (add_sequences builder ts) i).ranges ≡ t.ranges)
      × (get_or (add_sequences builder ts).max_term_weight i 0 ≡ max_element t.blocks)
unfolding get_enum
get_enum-add_sequences ts i t few_blocks few_ranges e =
    let h = add_sequences-Holds [] ts builder builder-Holds in
    let block_at = get_elem?-map (λ t. t.blocks) ts i t e in
    let range_at = get_elem?-map (λ t. t.ranges) ts i t e in
    let (block_start, blocks) = narrow-offsets (blocks_of ts) i t.blocks few_blocks block_at in
    let (range_start, ranges) = narrow-offsets (ranges_of ts) i t.ranges few_ranges range_at in
    (
      rw (h.blocks_start, h.blocks, blocks, block_start)
          (slice-flat (blocks_of ts) i t.blocks block_at),
      rw (h.ranges_start, h.ranges, ranges, range_start)
          (slice-flat (ranges_of ts) i t.ranges range_at),
      rw h.max_term_weight (
          get_or-some _ i (max_element t.blocks)
            (get_elem?-map (λ t. max_element t.blocks) ts i t e)),
    )
