-- ===== src/Entry/Layout.antt =====
-- What a list of entry data means: libmaxminddb lays a value out as its entries in order, a map with
-- a key in front of each value. `from_entry_data_list` reads the value back (extension/maxminddb.c,
-- lines 1028-1140).
mod Defs
mod Leaves
mod Convert
mod Calls
pub use Defs.*
pub use Leaves.{Intact, Converted}
pub use Convert.*
pub use Calls.*
