-- ===== src/Frontend/Kinds.antt =====
-- The dispatch of LogBank (src/feGEMClass.cxx) on the DATATYPE of a bank, and that SaveToTree of
-- libGEM/src/feGEM_module.cxx stores a bank with the same type.
use fe_gem.Common.{
  ℕ, ◌≡◌, refl, Bool, true, false, Option, none, some, Bytes, codes, if◌then◌else◌, strncmp_eq,
}
use fe_gem.Analyzer.Dispatch.{Element, element_of}

-- What a bank is handled as.
pub data Kind : Type 0 where
  double float bool int32 uint32 uint16 string_array string file : Kind

-- `none` ends the program.
unfoldable pub kind_of : Bytes → Option Kind
kind_of datatype =
    if strncmp_eq 3 datatype (codes "DBL")
    then some double
    else if strncmp_eq 3 datatype (codes "FLT")
    then some float
    else if strncmp_eq 4 datatype (codes "BOOL")
    then some bool
    else if strncmp_eq 3 datatype (codes "I32")
    then some int32
    else if strncmp_eq 4 datatype (codes "U32")
    then some uint32
    else if strncmp_eq 3 datatype (codes "U16")
    then some uint16
    else if strncmp_eq 4 datatype (codes "STRA")
    then some string_array
    else if strncmp_eq 3 datatype (codes "STR")
    then some string
    else if strncmp_eq 4 datatype (codes "FILE")
    then some file
    else none

-- sizeof(T) of the type that a bank is cast to.
unfoldable pub element_size : Kind → ℕ
element_size double = 8
element_size float = 4
element_size bool = 1
element_size int32 = 4
element_size uint32 = 4
element_size uint16 = 2
element_size string_array = 1
element_size string = 1
element_size file = 1

-- The element type with which the analyzer stores a bank of a kind.
abbrev pub stored_as : Option Kind → Option Element
stored_as none = none
stored_as (some double) = some Element.double
stored_as (some float) = some Element.float
stored_as (some bool) = some Element.bool
stored_as (some int32) = some Element.int32
stored_as (some uint32) = some Element.uint32
stored_as (some uint16) = some Element.uint16
stored_as (some string_array) = some Element.char
stored_as (some string) = some Element.char
stored_as (some file) = some Element.file

stored_as-if :
    (b : Bool) (k l : Option Kind)
    → stored_as (if b then k else l) ≡ (if b then stored_as k else stored_as l)
stored_as-if true k l = refl
stored_as-if false k l = refl

-- The analyzer reads every DATATYPE as the frontend does: it casts a bank to the element type of the
-- frontend, a string or an array of strings to bytes, and has no tree exactly where the frontend
-- ends.
pub element_of-kind_of : (datatype : Bytes) → element_of datatype ≡ stored_as (kind_of datatype)
unfolding element_of kind_of
element_of-kind_of datatype = simp stored_as-if
