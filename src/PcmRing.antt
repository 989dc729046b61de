-- ===== src/PcmRing.antt =====
-- cat-signal-audio/src/ring.rs: the bounded ring between the capture callback and the reader thread. Each
-- operation holds the mutex from its first step to its last, so a run is a sequence of operations.
-- `Sample` and `to_i16` stand for f32 and the bits of `pcm::to_i16`: of the floating-point
-- conversion the ring uses nothing but its 16 bits.
pub mod Newest
pub mod Samples
pub mod Stream
mod Tests
use Prim.Native.String.{String}
use radio_cat_rs.Base.{
  ℕ, ◌+◌, ◌-◌, ◌*◌, ◌/◌, ◌%◌, ◌^◌, max, min, Bool, true, false, List, [], ◌∷◌, ◌++◌, ltb,
  if◌then◌else◌, is_empty, length, take, drop, Option, none, some,
}
use radio_cat_rs.Base.Bytes.{Bytes}

abbrev pub bytes_per_sample : ℕ
bytes_per_sample = 2

pub record PcmRing : Type 0 where
  pub bytes : Bytes
  pub closed : Option String
  pub capacity : ℕ
  pub overruns : ℕ

abbrev pub new : ℕ → PcmRing
new capacity_samples = record {
  bytes = [];
  closed = none;
  capacity = max capacity_samples 1 * bytes_per_sample;
  overruns = 0;
}

module _ {Sample : Type 0} (to_i16 : Sample → ℕ) where
  -- `to_le_bytes` of each sample.
  unfoldable pub encode : List Sample → Bytes
  encode [] = []
  encode (s ∷ samples) = to_i16 s % 256 ∷ (to_i16 s / 256 % 256 ∷ encode samples)

  -- The samples of a block larger than the ring that are never stored, and the bytes that the rest
  -- pushes out.
  abbrev pub skipped : List Sample → PcmRing → ℕ
  skipped samples ring = length samples - ring.capacity / bytes_per_sample

  abbrev pub excess : List Sample → PcmRing → ℕ
  excess samples ring =
      let incoming = length (drop (skipped samples ring) samples) * bytes_per_sample in
      let would_be = length ring.bytes + incoming in
      if ltb ring.capacity would_be then would_be - ring.capacity else 0

  unfoldable pub push_open : List Sample → PcmRing → PcmRing
  push_open samples ring =
      let lost = skipped samples ring + excess samples ring / bytes_per_sample in
      record ring {
        bytes =
            drop (excess samples ring) ring.bytes ++ encode (drop (skipped samples ring) samples);
        overruns = (if ltb 0 lost then (ring.overruns + lost) % 2 ^ 64 else ring.overruns);
      }

  unfoldable pub push : List Sample → PcmRing → PcmRing
  push samples ring =
      if is_empty samples
      then ring
      else elim ring.closed [ some _ ↦ ring | none ↦ push_open samples ring ]

unfoldable pub close : String → PcmRing → PcmRing
close reason ring = elim ring.closed [ none ↦ record ring { closed = some reason } | some _ ↦ ring ]

unfoldable pub is_open : PcmRing → Bool
is_open ring = elim ring.closed [ none ↦ true | some _ ↦ false ]

-- `waits`: the reader sleeps on the condition variable.
pub data Read : Type 0 where
  delivered : Bytes → Read
  ended : String → Read
  waits : Read

-- `RingReader::read` into a buffer of `out` bytes, up to its return or its sleep.
unfoldable pub read : ℕ → PcmRing → PcmRing × Read
read out ring =
    if ltb 0 out
    then (if is_empty ring.bytes
        then elim ring.closed [ some reason ↦ (ring, ended reason) | none ↦ (ring, waits) ]
        else let n = min (length ring.bytes) out in
          (record ring { bytes = drop n ring.bytes }, delivered (take n ring.bytes)))
    else (ring, delivered [])
