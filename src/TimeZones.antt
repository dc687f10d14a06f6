-- ===== src/TimeZones.antt =====
-- The table of time zones of src/time.cc and the searches in it.
--
-- The names of the zones are left out: the code uses them to end the table and to print.
use barry.Prelude.{ℕ, Bool, false, ◌&&◌, List, [], ◌∷◌, ℤ, pos, negsuc, ◌==◌, if◌then◌else◌}

pub record StaticTimeZone : Type 0 where
  pub code : ℕ
  pub hour_offset : ℤ
  pub min_offset : ℤ

abbrev zone : ℕ → ℤ → ℤ → StaticTimeZone
zone c h m = record { code = c; hour_offset = h; min_offset = m }

-- `STATIC_TIME_ZONE_CODE_ERR`.
abbrev pub code_err : ℕ
code_err = 0xffff

abbrev pub zones : List StaticTimeZone
zones =
    zone 0x0000 (negsuc 11) (pos 0)
    ∷ zone 0x0001 (negsuc 11) (pos 0)
    ∷ zone 0x0002 (negsuc 9) (pos 0)
    ∷ zone 0x0003 (negsuc 8) (pos 0)
    ∷ zone 0x0004 (negsuc 7) (pos 0)
    ∷ zone 0x000a (negsuc 6) (pos 0)
    ∷ zone 0x000f (negsuc 6) (pos 0)
    ∷ zone 0x000d (negsuc 6) (pos 0)
    ∷ zone 0x0014 (negsuc 5) (pos 0)
    ∷ zone 0x0021 (negsuc 5) (pos 0)
    ∷ zone 0x0019 (negsuc 5) (pos 0)
    ∷ zone 0x001e (negsuc 5) (pos 0)
    ∷ zone 0x0023 (negsuc 4) (pos 0)
    ∷ zone 0x002d (negsuc 4) (pos 0)
    ∷ zone 0x0028 (negsuc 4) (pos 0)
    ∷ zone 0x0032 (negsuc 3) (pos 0)
    ∷ zone 0x0037 (negsuc 3) (pos 0)
    ∷ zone 0x0038 (negsuc 3) (pos 0)
    ∷ zone 0x003c (negsuc 2) (negsuc 29)
    ∷ zone 0x0046 (negsuc 2) (pos 0)
    ∷ zone 0x0041 (negsuc 2) (pos 0)
    ∷ zone 0x0049 (negsuc 2) (pos 0)
    ∷ zone 0x004b (negsuc 1) (pos 0)
    ∷ zone 0x0053 (negsuc 0) (pos 0)
    ∷ zone 0x0050 (negsuc 0) (pos 0)
    ∷ zone 0x0055 (pos 0) (pos 0)
    ∷ zone 0x005a (pos 0) (pos 0)
    ∷ zone 0x006e (pos 1) (pos 0)
    ∷ zone 0x0071 (pos 1) (pos 0)
    ∷ zone 0x005f (pos 1) (pos 0)
    ∷ zone 0x0069 (pos 1) (pos 0)
    ∷ zone 0x0064 (pos 1) (pos 0)
    ∷ zone 0x008c (pos 2) (pos 0)
    ∷ zone 0x0087 (pos 2) (pos 0)
    ∷ zone 0x0073 (pos 2) (pos 0)
    ∷ zone 0x0078 (pos 2) (pos 0)
    ∷ zone 0x0082 (pos 2) (pos 0)
    ∷ zone 0x007d (pos 2) (pos 0)
    ∷ zone 0x0096 (pos 3) (pos 0)
    ∷ zone 0x009b (pos 3) (pos 0)
    ∷ zone 0x009e (pos 3) (pos 0)
    ∷ zone 0x0091 (pos 3) (pos 0)
    ∷ zone 0x00a0 (pos 3) (pos 30)
    ∷ zone 0x00a5 (pos 4) (pos 0)
    ∷ zone 0x00aa (pos 4) (pos 0)
    ∷ zone 0x00af (pos 4) (pos 30)
    ∷ zone 0x00b9 (pos 5) (pos 0)
    ∷ zone 0x00b4 (pos 5) (pos 0)
    ∷ zone 0x00be (pos 5) (pos 30)
    ∷ zone 0x00c1 (pos 5) (pos 45)
    ∷ zone 0x00c3 (pos 6) (pos 0)
    ∷ zone 0x00c8 (pos 6) (pos 0)
    ∷ zone 0x00c9 (pos 6) (pos 0)
    ∷ zone 0x00cb (pos 6) (pos 30)
    ∷ zone 0x00cd (pos 7) (pos 0)
    ∷ zone 0x00cf (pos 7) (pos 0)
    ∷ zone 0x00d2 (pos 8) (pos 0)
    ∷ zone 0x00d7 (pos 8) (pos 0)
    ∷ zone 0x00e1 (pos 8) (pos 0)
    ∷ zone 0x00dc (pos 8) (pos 0)
    ∷ zone 0x00e3 (pos 8) (pos 0)
    ∷ zone 0x00eb (pos 9) (pos 0)
    ∷ zone 0x00e6 (pos 9) (pos 0)
    ∷ zone 0x00f0 (pos 9) (pos 0)
    ∷ zone 0x00f5 (pos 9) (pos 30)
    ∷ zone 0x00fa (pos 9) (pos 30)
    ∷ zone 0x0104 (pos 10) (pos 0)
    ∷ zone 0x0113 (pos 10) (pos 0)
    ∷ zone 0x00ff (pos 10) (pos 0)
    ∷ zone 0x0109 (pos 10) (pos 0)
    ∷ zone 0x010e (pos 10) (pos 0)
    ∷ zone 0x0118 (pos 11) (pos 0)
    ∷ zone 0x011d (pos 12) (pos 0)
    ∷ zone 0x0122 (pos 12) (pos 0)
    ∷ zone 0x012c (pos 13) (pos 0)
    ∷ []

abbrev unknown : StaticTimeZone
unknown = zone code_err (pos 0) (pos 0)

abbrev same_int : ℤ → ℤ → Bool
same_int (pos a) (pos b) = a == b
same_int (negsuc a) (negsuc b) = a == b
same_int (pos a) (negsuc b) = false
same_int (negsuc a) (pos b) = false

abbrev pub search_code : ℕ → List StaticTimeZone → StaticTimeZone
search_code code [] = unknown
search_code code (z ∷ zs) = if code == z.code then z else search_code code zs

unfoldable pub get_static_time_zone : ℕ → StaticTimeZone
get_static_time_zone code = search_code code zones

abbrev pub search_offset : ℤ → ℤ → List StaticTimeZone → ℕ
search_offset hour minute [] = code_err
search_offset hour minute (z ∷ zs) =
    if same_int hour z.hour_offset && same_int minute z.min_offset
    then z.code
    else search_offset hour minute zs

unfoldable pub get_static_time_zone_code : ℤ → ℤ → ℕ
get_static_time_zone_code hour minute = search_offset hour minute zones
