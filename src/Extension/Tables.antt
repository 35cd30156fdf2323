-- ===== src/Extension/Tables.antt =====
-- The tables of methods, members and slots of the three types: extension/maxminddb.c, lines
-- 1183-1310.
use max_mind_db_reader_pytho.Base.{String, List, [], ◌∷◌}

-- The C functions that the tables name.
pub data Function : Type 0 where
  reader_get reader_get_with_prefix_len reader_metadata reader_close : Function
  reader_exit reader_enter reader_init reader_iter reader_dealloc : Function
  metadata_init metadata_dealloc : Function
  reader_iter_next reader_iter_dealloc py_object_self_iter : Function

pub data Convention : Type 0 where
  meth_varargs meth_noargs : Convention

-- `PyMethodDef`
pub record MethodDef : Type 0 where
  pub ml_name : String
  pub ml_meth : Function
  pub ml_flags : Convention
  pub ml_doc : String

-- The fields that `offsetof` names.
pub data Offset : Type 0 where
  closed_of_reader : Offset
  binary_format_major_version_of_metadata : Offset
  binary_format_minor_version_of_metadata : Offset
  build_epoch_of_metadata : Offset
  database_type_of_metadata : Offset
  description_of_metadata : Offset
  ip_version_of_metadata : Offset
  languages_of_metadata : Offset
  node_count_of_metadata : Offset
  record_size_of_metadata : Offset

-- `PyMemberDef`; each of the members is a READONLY `T_OBJECT`.
pub record MemberDef : Type 0 where
  pub name : String
  pub offset : Offset

-- `PyType_Slot`
pub data TypeSlot : Type 0 where
  tp_doc : String → TypeSlot
  tp_dealloc tp_init tp_iter tp_iternext : Function → TypeSlot
  tp_methods : List MethodDef → TypeSlot
  tp_members : List MemberDef → TypeSlot

-- `PyType_Spec`; the flags are Py_TPFLAGS_DEFAULT in each of them.
pub record TypeSpec : Type 0 where
  pub name : String
  pub slots : List TypeSlot

abbrev pub reader_methods : List MethodDef
reader_methods =
    record {
      ml_name = "get";
      ml_meth = reader_get;
      ml_flags = meth_varargs;
      ml_doc = "Return the record for the ip_address in the MaxMind DB";
    }
    ∷ record {
      ml_name = "get_with_prefix_len";
      ml_meth = reader_get_with_prefix_len;
      ml_flags = meth_varargs;
      ml_doc = "Return a tuple with the record and the associated prefix length";
    }
    ∷ record {
      ml_name = "metadata";
      ml_meth = reader_metadata;
      ml_flags = meth_noargs;
      ml_doc = "Return metadata object for database";
    }
    ∷ record {
      ml_name = "close";
      ml_meth = reader_close;
      ml_flags = meth_noargs;
      ml_doc = "Closes database";
    }
    ∷ record {
      ml_name = "__exit__";
      ml_meth = reader_exit;
      ml_flags = meth_varargs;
      ml_doc = "Called when exiting a with-context. Calls close";
    }
    ∷ record {
      ml_name = "__enter__";
      ml_meth = reader_enter;
      ml_flags = meth_noargs;
      ml_doc = "Called when entering a with-context.";
    }
    ∷ []

abbrev pub reader_members : List MemberDef
reader_members = record { name = "closed"; offset = closed_of_reader } ∷ []

abbrev pub reader_iter_methods : List MethodDef
reader_iter_methods = []

abbrev pub metadata_methods : List MethodDef
metadata_methods = []

abbrev pub metadata_members : List MemberDef
metadata_members =
    record {
      name = "binary_format_major_version";
      offset = binary_format_major_version_of_metadata;
    }
    ∷ record {
      name = "binary_format_minor_version";
      offset = binary_format_minor_version_of_metadata;
    }
    ∷ record { name = "build_epoch"; offset = build_epoch_of_metadata }
    ∷ record { name = "database_type"; offset = database_type_of_metadata }
    ∷ record { name = "description"; offset = description_of_metadata }
    ∷ record { name = "ip_version"; offset = ip_version_of_metadata }
    ∷ record { name = "languages"; offset = languages_of_metadata }
    ∷ record { name = "node_count"; offset = node_count_of_metadata }
    ∷ record { name = "record_size"; offset = record_size_of_metadata }
    ∷ []

abbrev pub reader_type_slots : List TypeSlot
reader_type_slots =
    tp_doc "Reader object"
    ∷ tp_dealloc reader_dealloc
    ∷ tp_init reader_init
    ∷ tp_iter reader_iter
    ∷ tp_methods reader_methods
    ∷ tp_members reader_members
    ∷ []

abbrev pub reader_type_spec : TypeSpec
reader_type_spec = record { name = "maxminddb.extension.Reader"; slots = reader_type_slots }

abbrev pub metadata_type_slots : List TypeSlot
metadata_type_slots =
    tp_doc "Metadata object"
    ∷ tp_dealloc metadata_dealloc
    ∷ tp_init metadata_init
    ∷ tp_methods metadata_methods
    ∷ tp_members metadata_members
    ∷ []

abbrev pub metadata_type_spec : TypeSpec
metadata_type_spec = record { name = "maxminddb.extension.Metadata"; slots = metadata_type_slots }

abbrev pub reader_iter_type_slots : List TypeSlot
reader_iter_type_slots =
    tp_doc "Iterator for Reader object"
    ∷ tp_dealloc reader_iter_dealloc
    ∷ tp_iter py_object_self_iter
    ∷ tp_iternext reader_iter_next
    ∷ tp_methods reader_iter_methods
    ∷ []

abbrev pub reader_iter_type_spec : TypeSpec
reader_iter_type_spec = record {
  name = "maxminddb.extension.ReaderIter";
  slots = reader_iter_type_slots;
}
