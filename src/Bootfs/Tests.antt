-- ===== src/Bootfs/Tests.antt =====
-- The theorems on the archive at a concrete one.
use rymos.Prelude.{◌≡◌, refl, some, arith, write_slice, read_slice, le32}
use rymos.Prelude.Int.{pos}
use rymos.Bootfs.{
  checked_app_slice, BootFsEntry, valid, entry_count, entry_size, entry, find_entry, entry_data,
  find_data, data_from, abi_file_size, abi_file_read,
}
use rymos.Bootfs.Samples.{a, image}
use rymos.Bootfs.Search.{Search, find_entry-Search, data_of, find_data-find_entry}
use rymos.Bootfs.Calls.{abi_file_read-all}

find_entry-Search_example : Search image a (find_entry image a)
find_entry-Search_example = find_entry-Search image a

find_data-find_entry_example : find_data image a ≡ data_of image (find_entry image a)
find_data-find_entry_example = find_data-find_entry image a

abi_file_read-all_example :
    (e : BootFsEntry) × (find_entry image a ≡ some e)
    × (e.data_len ≡ 2)
    × (abi_file_read image a 10 ≡ (pos 2, entry_data image e))
unfolding abi_file_size checked_app_slice find_data data_from entry entry_size entry_count valid
    write_slice read_slice le32
abi_file_read-all_example = abi_file_read-all image a 2 10 refl (omega arith)
