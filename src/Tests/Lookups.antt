-- ===== src/Tests/Lookups.antt =====
-- Lookups, conversions and closes of extension/maxminddb.c on a small database.
use max_mind_db_reader_pytho.Lookup.Get.{Gets, get_record-Gets}
use max_mind_db_reader_pytho.Entry.Long.{Reads, from_entry_data_list-LongOf}
use max_mind_db_reader_pytho.Base.{
  inr, suc, ◌++◌, ◌≡◌, refl, some, [], ◌∷◌, length, replicate, arith,
}
use max_mind_db_reader_pytho.Env.{Env, uint32, byte_array, utf8_string, uint16, array}
use max_mind_db_reader_pytho.Runtime.Outcome.{Outcome, Ensures}
use max_mind_db_reader_pytho.Entry.{from_entry_data_list, uint128_value}
use max_mind_db_reader_pytho.Entry.Layout.{layout, value, Converted, from_entry_data_list-layout}
use max_mind_db_reader_pytho.Entry.Resources.{Corrupt, Post, from_entry_data_list-Post}
use max_mind_db_reader_pytho.Entry.BigEndian.{big_endian, uint128_value-big_endian}
use max_mind_db_reader_pytho.Address.{unicode}
use max_mind_db_reader_pytho.Reader.{reader_close}
use max_mind_db_reader_pytho.Reader.Close.{Closes, reader_close-Closes}
use max_mind_db_reader_pytho.Lookup.{get_record, lookup_address, reader_get_with_prefix_len}
use max_mind_db_reader_pytho.Lookup.Resources.{
  Delivered, get_record-Delivered, get_with_prefix_len-Delivered,
}
use max_mind_db_reader_pytho.Lookup.Answer.{Answer, lookup_address-Answer}
use max_mind_db_reader_pytho.Tests.Data.{city, db, address, demo, open_reader}

lookup_address_example :
    Ensures (Answer demo db address open_reader) (lookup_address demo address open_reader)
lookup_address_example =
    lookup_address-Answer demo db address open_reader (λ e h. (city, refl)) (0, refl) refl
      (ground arith)

layout_example : Ensures (Converted demo open_reader (uint16 9 ∷ []) (value demo city)) (
    from_entry_data_list demo
      (suc (length (layout city (uint16 9 ∷ []))))
      (layout city (uint16 9 ∷ []))
      open_reader)
layout_example = from_entry_data_list-layout demo city (uint16 9 ∷ []) open_reader

any_list_example :
    Outcome Corrupt
      (Post (array 2 ∷ utf8_string [] ∷ []) open_reader)
      (from_entry_data_list demo 3 (array 2 ∷ utf8_string [] ∷ []) open_reader)
any_list_example =
    from_entry_data_list-Post demo 3 (array 2 ∷ utf8_string [] ∷ []) open_reader (omega arith)

get_record_example :
    Outcome Corrupt
      (Delivered open_reader)
      (get_record demo (some (unicode (some (49 ∷ [])))) open_reader)
get_record_example =
    get_record-Delivered demo (some (unicode (some (49 ∷ [])))) open_reader (0, refl)

get_with_prefix_len_example :
    Outcome Corrupt
      (Delivered open_reader)
      (reader_get_with_prefix_len demo (some (unicode (some (50 ∷ [])))) open_reader)
get_with_prefix_len_example =
    get_with_prefix_len-Delivered demo (some (unicode (some (50 ∷ [])))) open_reader (0, refl)

big_endian_example :
    uint128_value (byte_array (replicate 15 0 ++ 10 ∷ [])) ≡ big_endian (replicate 15 0 ++ 10 ∷ [])
big_endian_example = uint128_value-big_endian (replicate 15 0 ++ 10 ∷ []) refl (ground arith)

close_example : Ensures (Closes open_reader) (reader_close demo open_reader)
close_example = reader_close-Closes demo open_reader refl (omega arith)

-- Where a long has 32 bits.
abbrev short_longs : Env
short_longs = record demo { long_bits = 32 }

long_example :
    Ensures
      (Reads short_longs 3000000000 (uint32 3000000000 ∷ []) open_reader)
      (from_entry_data_list short_longs 1 (uint32 3000000000 ∷ []) open_reader)
long_example =
    from_entry_data_list-LongOf short_longs 0 3000000000 [] open_reader (inr refl) (omega arith)

get_example :
    Ensures
      (Gets demo db (unicode (some (49 ∷ []))) open_reader)
      (get_record demo (some (unicode (some (49 ∷ [])))) open_reader)
get_example =
    get_record-Gets demo db (unicode (some (49 ∷ []))) open_reader (λ e h. (city, refl)) (0, refl)
      refl
