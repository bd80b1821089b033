-- ===== src/Dn42/Wire/RoundTrip/Segments.antt =====
-- Lists of numbers, and the segments of a path, are read back as they were written.
use landscape_rill.Base.{
  ℕ, suc, ◌+◌, ◌*◌, ◌%◌, ◌^◌, ◌≡◌, ◌<◌, refl, sym, ap, ◌∙◌, Bool, true, false, List, [], ◌∷◌, ◌++◌,
  All, length, length-append, drop, ◌==◌, if◌then◌else◌, ok, arith,
}
use native.Mathlib.Nat.{mod-eq_of_lt}
use landscape_rill.Base.Bytes.{be_bytes, be_value-be_bytes}
use landscape_rill.Base.Slices.{append-nil, drop-append_at}
use landscape_rill.Dn42.Message.{Segment}
use landscape_rill.Dn42.Wire.{as_set, as_sequence, while_left, numbers}
use landscape_rill.Dn42.Wire.Read.{is_long, decode_segment, decode_segments_exact}
use landscape_rill.Dn42.Wire.Write.{write_asns, write_communities, write_segment, write_segments}
use landscape_rill.Dn42.Wire.RoundTrip.Loops.{
  write_all, write_all_lem, Reads, map_to_id, All-map, while_left-write_all,
}

-- A value of the Rust type `u32`.
abbrev pub IsU32 : ℕ → Type 0
IsU32 n = n < 2 ^ 32

-- A segment that its count byte can count.
pub record IsSegment (s : Segment) : Type 0 where
  pub few : length s.asns < 256
  pub words : All IsU32 s.asns

abbrev write_words : List ℕ → List ℕ
write_words ns = write_all (be_bytes 4) ns

length-write_words : (ns : List ℕ) → length (write_words ns) ≡ length ns * 4
length-write_words [] = refl
length-write_words (n ∷ ns) = omega (arith, length-write_words ns)

numbers-write_words :
    (ns : List ℕ) (rest : List ℕ)
    → All IsU32 ns
    → numbers 4 (length ns) (write_words ns ++ rest) ≡ ns
numbers-write_words [] rest h = refl
numbers-write_words (n ∷ ns) rest h =
    ap (λ v. v ∷ numbers 4 (length ns) (write_words ns ++ rest)) (be_value-be_bytes 4 n h.0)
    ∙ ap (λ t. n ∷ t) (numbers-write_words ns rest h.1)

write_asns_all : (ns : List ℕ) → write_asns true ns ≡ write_words ns
unfolding write_asns
write_asns_all ns = write_all_lem (be_bytes 4) (write_asns true) refl (λ n rest. refl) ns

pub write_communities_all : (ns : List ℕ) → write_communities ns ≡ write_words ns
unfolding write_communities
write_communities_all ns = write_all_lem (be_bytes 4) write_communities refl (λ n rest. refl) ns

pub length-write_communities : (ns : List ℕ) → length (write_communities ns) ≡ length ns * 4
length-write_communities ns = ap length (write_communities_all ns) ∙ length-write_words ns

pub numbers-write_communities :
    (ns : List ℕ) → All IsU32 ns → numbers 4 (length ns) (write_communities ns) ≡ ns
numbers-write_communities ns h =
    ap (λ b. numbers 4 (length ns) b) (write_communities_all ns ∙ sym (append-nil (write_words ns)))
    ∙ numbers-write_words ns [] h

tag_lem : (set : Bool) → ((if set then as_set else as_sequence) == as_set) ≡ set
tag_lem true = refl
tag_lem false = refl

decode_segment-write_segment :
    (s : Segment)
    → IsSegment s
    → (rest : List ℕ) → decode_segment true (write_segment true s ++ rest) ≡ ok (s, rest)
unfolding decode_segment write_segment
decode_segment-write_segment s is rest =
    let n = length s.asns in
    let tag = if s.is_set then as_set else as_sequence in
    let count : n % 256 ≡ n = mod-eq_of_lt is.few in
    let size = length-write_words s.asns in
    let buf = tag ∷ n ∷ (write_words s.asns ++ rest) in
    let short : is_long 2 buf ≡ true = ground arith in
    let long : is_long (2 + n * 4) buf ≡ true =
      ground (arith, length-append (write_words s.asns) rest, size) in
    let e : 2 + n * 4 ≡ suc (suc (n * 4)) = omega arith in
    let left : drop (2 + n * 4) buf ≡ rest =
      ap (λ k. drop k buf) e ∙ drop-append_at (write_words s.asns) rest (n * 4) size in
    rw
      (
        write_asns_all s.asns,
        count,
        short,
        long,
        numbers-write_words s.asns rest is.words,
        tag_lem s.is_set,
      )
      (ap (λ t. ok (s, t)) left)

segment-Reads :
    (s : Segment)
    → IsSegment s
    → Reads (decode_segment true) (write_segment true) (λ (t : Segment). t) s
unfolding write_segment
segment-Reads s is = (omega arith, decode_segment-write_segment s is)

write_segments_all :
    (segs : List Segment) → write_segments true segs ≡ write_all (write_segment true) segs
unfolding write_segments
write_segments_all segs =
    write_all_lem (write_segment true) (write_segments true) refl (λ s rest. refl) segs

pub decode_segments-write_segments :
    (segs : List Segment)
    → All IsSegment segs
    → decode_segments_exact true (write_segments true segs) ≡ ok segs
unfolding decode_segments_exact
decode_segments-write_segments segs h =
    ap (λ b. while_left (decode_segment true) b) (write_segments_all segs)
    ∙ while_left-write_all (decode_segment true) (write_segment true) (λ (s : Segment). s) segs
        (All-map segment-Reads segs h)
    ∙ ap ok (map_to_id segs)
