-- ===== src/Video/Annexb.antt =====
-- crates/drift-video/src/annexb.rs: NAL units in Annex-B and AVCC byte streams.
pub mod Samples
mod Examples
use drift.Base.{
  ℕ, zero, suc, ◌+◌, ◌-◌, ◌*◌, ◌/◌, ◌%◌, ◌^◌, Bool, true, false, not, ◌&&◌, ◌||◌, Option, none,
  some, List, [], ◌∷◌, ◌++◌, leb, ltb, ◌==◌, if◌then◌else◌, length, take, drop, Result, ok, err,
}
use drift.Gfx.Pdu.{Bytes}

-- The types that are told apart (`nal_type`).
abbrev pub idr : ℕ
idr = 5

abbrev pub sps_type : ℕ
sps_type = 7

abbrev pub pps_type : ℕ
pps_type = 8

abbrev pub aud : ℕ
aud = 9

pub data AnnexBError : Type 0 where
  empty : AnnexBError
  truncated : ℕ → ℕ → AnnexBError
  too_large : AnnexBError

-- The first loop of `split_nals`: the positions after each `00 00 01`, for the bytes from `i` on; the
-- first `skip` of them belong to a start code that is found already.
abbrev starts : ℕ → ℕ → Bytes → List ℕ
starts i skip [] = []
starts i (suc skip) (b ∷ bs) = starts (i + 1) skip bs
starts i zero (a ∷ b ∷ c ∷ bs) =
    let found = starts (i + 1) 2 (b ∷ c ∷ bs) in
    let rest = starts (i + 1) 0 (b ∷ c ∷ bs) in
    if a == 0 && b == 0 && c == 1 then (i + 3) ∷ found else rest
starts i zero (a ∷ bs) = []

-- `while let [rest @ .., 0] = nal`.
abbrev pub strip_zeros : Bytes → Bytes
strip_zeros [] = []
strip_zeros (b ∷ bs) = let rest = strip_zeros bs in if is_done rest && b == 0 then [] else b ∷ rest
  where
    is_done : Bytes → Bool
    is_done [] = true
    is_done (x ∷ xs) = false

abbrev kept : Bytes → List Bytes → List Bytes
kept [] nals = nals
kept (b ∷ bs) nals = (b ∷ bs) ∷ nals

-- `&data[start..end.max(start)]`.
abbrev between : ℕ → ℕ → Bytes → Bytes
between start end bytes = take (end - start) (drop start bytes)

-- The second loop.
abbrev nals_at : Bytes → List ℕ → List Bytes
nals_at bytes [] = []
nals_at bytes (start ∷ []) = kept (strip_zeros (between start (length bytes) bytes)) []
nals_at bytes (start ∷ next ∷ more) =
    kept (strip_zeros (between start (next - 3) bytes)) (nals_at bytes (next ∷ more))

-- `split_nals`.
unfoldable pub split_nals : Bytes → List Bytes
split_nals bytes = nals_at bytes (starts 0 0 bytes)

-- `nal_unit_type`: `b & 0x1F`.
abbrev pub nal_unit_type : Bytes → Option ℕ
nal_unit_type [] = none
nal_unit_type (b ∷ bs) = some (b % 32)

pub record AccessUnit : Type 0 where
  pub sps : List Bytes
  pub pps : List Bytes
  pub avcc : Bytes
  pub is_idr : Bool

-- `AccessUnit::default`.
abbrev pub no_unit : AccessUnit
no_unit = record { sps = []; pps = []; avcc = []; is_idr = false }

abbrev pub has_type : ℕ → Option ℕ → Bool
has_type t none = false
has_type t (some u) = t == u

-- `u32::to_be_bytes`.
abbrev pub be_32 : ℕ → Bytes
be_32 v = v / 16777216 % 256 ∷ v / 65536 % 256 ∷ v / 256 % 256 ∷ v % 256 ∷ []

-- The loop of `from_annex_b`.
unfoldable pub add_nals : AccessUnit → List Bytes → Result AnnexBError AccessUnit
add_nals au [] = ok au
add_nals au (n ∷ ns) =
    let t = nal_unit_type n in
    let skipped = add_nals au ns in
    let with_sps = add_nals (record au { sps = au.sps ++ (n ∷ []) }) ns in
    let with_pps = add_nals (record au { pps = au.pps ++ (n ∷ []) }) ns in
    let with_picture =
      add_nals
        (record au {
          is_idr = au.is_idr || has_type idr t;
          avcc = au.avcc ++ be_32 (length n) ++ n;
        })
        ns in
    if has_type aud t
    then skipped
    else if has_type sps_type t
    then with_sps
    else if has_type pps_type t
    then with_pps
    else if ltb (length n) (2 ^ 32)
    then with_picture
    else err too_large

abbrev unit_of : List Bytes → Result AnnexBError AccessUnit
unit_of [] = err empty
unit_of (n ∷ ns) = add_nals no_unit (n ∷ ns)

-- `AccessUnit::from_annex_b`.
unfoldable pub from_annex_b : Bytes → Result AnnexBError AccessUnit
from_annex_b bytes = unit_of (split_nals bytes)

-- `(acc << 8) | b` over the prefix.
abbrev pub be_value : ℕ → Bytes → ℕ
be_value acc [] = acc
be_value acc (b ∷ bs) = be_value (acc * 256 + b) bs

abbrev pub with_nal :
    Bytes → Option (Result AnnexBError (List Bytes)) → Option (Result AnnexBError (List Bytes))
with_nal n (some (ok ns)) = some (ok (n ∷ ns))
with_nal n r = r

-- The loop of `avcc_nals` from `offset` on, where `bytes` are left; `none` when the fuel runs out.
unfoldable pub avcc_loop : ℕ → ℕ → ℕ → Bytes → Option (Result AnnexBError (List Bytes))
avcc_loop fuel size offset [] = some (ok [])
avcc_loop zero size offset (b ∷ bs) = none
avcc_loop (suc fuel) size offset (b ∷ bs) =
    let bytes = b ∷ bs in
    let len = be_value 0 (take size bytes) in
    let body = drop size bytes in
    let rest = avcc_loop fuel size (offset + size + len) (drop len body) in
    if ltb (length bytes) size
    then some (err (truncated offset size))
    else if ltb (length body) len
    then some (err (truncated offset len))
    else with_nal (take len body) rest

-- A length outside 1..=4 is treated as 4.
abbrev pub length_size_of : ℕ → ℕ
length_size_of n = if leb 1 n && leb n 4 then n else 4

-- `avcc_nals`. Each round takes at least one byte.
unfoldable pub avcc_nals : Bytes → ℕ → Option (Result AnnexBError (List Bytes))
avcc_nals bytes n = avcc_loop (length bytes) (length_size_of n) 0 bytes

abbrev with_start_codes : List Bytes → Bytes
with_start_codes [] = []
with_start_codes (n ∷ ns) = 0 ∷ 0 ∷ 0 ∷ 1 ∷ n ++ with_start_codes ns

abbrev joined : Option (Result AnnexBError (List Bytes)) → Option (Result AnnexBError Bytes)
joined none = none
joined (some (ok ns)) = some (ok (with_start_codes ns))
joined (some (err e)) = some (err e)

-- `avcc_to_annex_b`.
unfoldable pub avcc_to_annex_b : Bytes → ℕ → Option (Result AnnexBError Bytes)
avcc_to_annex_b bytes n = joined (avcc_nals bytes n)

abbrev second : Bytes → Option ℕ
second (a ∷ b ∷ bs) = some b
second _ = none

-- `sps_profile_idc`.
unfoldable pub sps_profile_idc : Bytes → Option ℕ
sps_profile_idc sps = if has_type sps_type (nal_unit_type sps) then second sps else none
