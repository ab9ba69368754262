-- ===== src/Tests/Update.antt =====
-- The releases of the comment of `Newer`.
use zeropentime.Bencode.{lt_text}
use zeropentime.Bencode.Number.{parse_int, signed, parse_uint, scan}
use zeropentime.Prelude.{◌≡◌, refl, true, false, codes, Bytes_discrete, ℕ_discrete}
use zeropentime.Update.{
  newer, parse_version, without_v, cut_dash, onto_first, split_dots, part_of, numbers_of,
  version_of, is_blank, newer_pre, newer_version,
}
use zeropentime.Update.Order.{IsLaterText, newer_lem}

final_newer : newer (codes "v0.6.2") (codes "0.6.2-rc.1") ≡ true
unfolding newer parse_version without_v cut_dash onto_first split_dots part_of numbers_of version_of
    is_blank newer_pre newer_version lt_text parse_int signed parse_uint scan Bytes_discrete
    ℕ_discrete
final_newer = refl

-- The tenth candidate is not newer than the ninth.
tenth_older : newer (codes "0.6.2-rc.10") (codes "0.6.2-rc.9") ≡ false
unfolding newer parse_version without_v cut_dash onto_first split_dots part_of numbers_of version_of
    is_blank newer_pre newer_version lt_text parse_int signed parse_uint scan Bytes_discrete
    ℕ_discrete
tenth_older = refl

newer_lem_example :
    IsLaterText (codes "v0.6.2") (codes "0.6.2-rc.1")
    × (newer (codes "0.6.2-rc.1") (codes "v0.6.2") ≡ false)
    × (newer (codes "0.6.2-rc.1") (codes "0.6.1") ≡ true
        → newer (codes "v0.6.2") (codes "0.6.1") ≡ true)
newer_lem_example = newer_lem (codes "v0.6.2") (codes "0.6.2-rc.1") (codes "0.6.1") final_newer
