-- ===== src/Emit/Util.antt =====
-- The identifiers and names of src/emit/src/Util.cpp.
pub mod Identifiers
pub mod Prefixes
mod Tests
pub mod Walk
use zircon_dumper.Prelude.{
  ℕ, zero, suc, ◌+◌, Bool, true, false, not, ◌&&◌, ◌||◌, Option, none, some, List, [], ◌∷◌, ◌++◌,
  leb, ◌==◌, if◌then◌else◌, take, drop, length, map, get_or,
}
use zircon_dumper.Prelude.Preds.{Bytes}
use zircon_dumper.Prelude.Text.{codes, same_bytes, lookup, assign_key}
use zircon_dumper.Ir.{Struct, Package, Dump}

abbrev pub k_reserved : List Bytes
k_reserved =
    codes "alignas"
    ∷ codes "alignof"
    ∷ codes "and"
    ∷ codes "and_eq"
    ∷ codes "asm"
    ∷ codes "auto"
    ∷ codes "bitand"
    ∷ codes "bitor"
    ∷ codes "bool"
    ∷ codes "break"
    ∷ codes "case"
    ∷ codes "catch"
    ∷ codes "char"
    ∷ codes "char8_t"
    ∷ codes "char16_t"
    ∷ codes "char32_t"
    ∷ codes "class"
    ∷ codes "compl"
    ∷ codes "concept"
    ∷ codes "const"
    ∷ codes "consteval"
    ∷ codes "constexpr"
    ∷ codes "constinit"
    ∷ codes "const_cast"
    ∷ codes "continue"
    ∷ codes "co_await"
    ∷ codes "co_return"
    ∷ codes "co_yield"
    ∷ codes "decltype"
    ∷ codes "default"
    ∷ codes "delete"
    ∷ codes "do"
    ∷ codes "double"
    ∷ codes "dynamic_cast"
    ∷ codes "else"
    ∷ codes "enum"
    ∷ codes "explicit"
    ∷ codes "export"
    ∷ codes "extern"
    ∷ codes "false"
    ∷ codes "float"
    ∷ codes "for"
    ∷ codes "friend"
    ∷ codes "goto"
    ∷ codes "if"
    ∷ codes "inline"
    ∷ codes "int"
    ∷ codes "long"
    ∷ codes "mutable"
    ∷ codes "namespace"
    ∷ codes "new"
    ∷ codes "noexcept"
    ∷ codes "not"
    ∷ codes "not_eq"
    ∷ codes "nullptr"
    ∷ codes "operator"
    ∷ codes "or"
    ∷ codes "or_eq"
    ∷ codes "private"
    ∷ codes "protected"
    ∷ codes "public"
    ∷ codes "register"
    ∷ codes "reinterpret_cast"
    ∷ codes "requires"
    ∷ codes "return"
    ∷ codes "short"
    ∷ codes "signed"
    ∷ codes "sizeof"
    ∷ codes "static"
    ∷ codes "static_assert"
    ∷ codes "static_cast"
    ∷ codes "struct"
    ∷ codes "switch"
    ∷ codes "template"
    ∷ codes "this"
    ∷ codes "thread_local"
    ∷ codes "throw"
    ∷ codes "true"
    ∷ codes "try"
    ∷ codes "typedef"
    ∷ codes "typeid"
    ∷ codes "typename"
    ∷ codes "union"
    ∷ codes "unsigned"
    ∷ codes "using"
    ∷ codes "virtual"
    ∷ codes "void"
    ∷ codes "volatile"
    ∷ codes "wchar_t"
    ∷ codes "while"
    ∷ codes "xor"
    ∷ codes "xor_eq"
    ∷ codes "__declspec"
    ∷ codes "__forceinline"
    ∷ codes "__int8"
    ∷ codes "__int16"
    ∷ codes "__int32"
    ∷ codes "__int64"
    ∷ codes "interface"
    ∷ codes "NULL"
    ∷ codes "TRUE"
    ∷ codes "FALSE"
    ∷ codes "int8"
    ∷ codes "int16"
    ∷ codes "int32"
    ∷ codes "int64"
    ∷ codes "uint8"
    ∷ codes "uint16"
    ∷ codes "uint32"
    ∷ codes "uint64"
    ∷ codes "FName"
    ∷ codes "FString"
    ∷ codes "FText"
    ∷ codes "TArray"
    ∷ codes "TMap"
    ∷ codes "TSet"
    ∷ codes "TWeakObjectPtr"
    ∷ codes "TLazyObjectPtr"
    ∷ codes "TSoftObjectPtr"
    ∷ codes "TSoftClassPtr"
    ∷ codes "TScriptInterface"
    ∷ codes "TSubclassOf"
    ∷ codes "TOptional"
    ∷ codes "FDelegate"
    ∷ codes "FMulticastDelegate"
    ∷ codes "FFieldPath"
    ∷ []

unfoldable pub member : List Bytes → Bytes → Bool
member [] word = false
member (w ∷ words) word = same_bytes w word || member words word

abbrev pub is_letter : ℕ → Bool
is_letter c = (leb b'a' c && leb c b'z') || (leb b'A' c && leb c b'Z')

abbrev pub is_number : ℕ → Bool
is_number c = leb b'0' c && leb c b'9'

-- A character that an identifier may hold.
abbrev pub is_word : ℕ → Bool
is_word c = is_letter c || is_number c || (c == b'_')

unfoldable pub word_char : ℕ → ℕ
word_char c = if is_word c then c else b'_'

-- The insertions of SanitizeIdentifier at the front.
unfoldable pub named : Bytes → Bytes
named [] = codes "_unnamed"
named (c ∷ cs) = c ∷ cs

unfoldable pub started : Bytes → Bytes
started out = if is_number (get_or out 0 0) then b'_' ∷ out else out

unfoldable pub unreserved : Bytes → Bytes
unreserved out = if member k_reserved out then out ++ b'_' ∷ [] else out

unfoldable pub sanitize_identifier : Bytes → Bytes
sanitize_identifier name = unreserved (started (named (map word_char name)))

-- `find` and `find_last_of` of a character.
unfoldable pub first_of : ℕ → Bytes → Option ℕ
first_of c [] = none
first_of c (x ∷ xs) =
    if x == c then some 0 else elim (first_of c xs) [ none ↦ none | some i ↦ some (suc i) ]

unfoldable pub last_of : ℕ → Bytes → Option ℕ
last_of c [] = none
last_of c (x ∷ xs) = elim (last_of c xs) [
  | some i ↦ some (suc i)
  | none ↦ if x == c then some 0 else none
]

unfoldable pub after : Bytes → Option ℕ → Bytes
after path none = path
after path (some i) = drop (i + 1) path

unfoldable pub leaf_name : Bytes → Bytes
leaf_name path = after path (last_of b'.' path)

unfoldable pub before : Bytes → Option ℕ → Bytes
before path none = path
before path (some i) = take i path

unfoldable pub package_name : Bytes → Bytes
package_name path = before path (first_of b'.' path)

unfoldable pub package_file_stem : Bytes → Bytes
package_file_stem path = sanitize_identifier (after path (last_of b'/' path))

-- `by_path`, of all the classes of a dump.
unfoldable pub index_classes : List Struct → List (Bytes × Struct) → List (Bytes × Struct)
index_classes [] by_path = by_path
index_classes (c ∷ classes) by_path = index_classes classes (assign_key by_path c.path c)

unfoldable pub index_packages : List Package → List (Bytes × Struct) → List (Bytes × Struct)
index_packages [] by_path = by_path
index_packages (p ∷ packages) by_path = index_packages packages (index_classes p.classes by_path)

-- The walk along the chain of super classes; `none` is a walk that has no round left.
unfoldable pub prefix_loop : ℕ → List (Bytes × Struct) → List Bytes → Option Struct → Option ℕ
prefix_loop zero by_path seen current = none
prefix_loop (suc f) by_path seen none = some b'U'
prefix_loop (suc f) by_path seen (some current) =
    let next = prefix_loop f by_path (current.path ∷ seen) (lookup by_path current.super) in
    if same_bytes current.path (codes "/Script/Engine.Actor")
    then some b'A'
    else if same_bytes current.path (codes "/Script/CoreUObject.Interface")
    then some b'I'
    else if length current.super == 0
    then some b'U'
    else if member seen current.path
    then some b'U'
    else next

-- The statics of CppPrefixFor: the address of the dump that the map was made of, and the map.
pub record PrefixCache : Type 0 where
  pub cached_dump : Option ℕ
  pub by_path : List (Bytes × Struct)

-- The statics before the first call.
abbrev pub no_cache : PrefixCache
no_cache = record { cached_dump = none; by_path = [] }

-- `cached_dump != &dump`.
unfoldable pub is_stale : Option ℕ → ℕ → Bool
is_stale none address = true
is_stale (some cached) address = not (cached == address)

unfoldable pub refreshed : PrefixCache → ℕ → Dump → PrefixCache
refreshed cache address dump =
    if is_stale cache.cached_dump address
    then record { cached_dump = some address; by_path = index_packages dump.packages [] }
    else cache

-- The walk from a record; a path is visited once, so the classes of the map and three are rounds
-- enough.
unfoldable pub walk_prefix : List (Bytes × Struct) → Struct → Option ℕ
walk_prefix by_path entry = prefix_loop (suc (suc (suc (length by_path)))) by_path [] (some entry)

-- The statics after a call, and what it returns. The dump is given with its address.
unfoldable pub cpp_prefix_for : PrefixCache → ℕ → Dump → Struct → PrefixCache × Option ℕ
cpp_prefix_for cache address dump entry =
    if not (entry.cpp_prefix == 0)
    then (cache, some entry.cpp_prefix)
    else if not entry.is_class
    then (cache, some b'F')
    else let fresh = refreshed cache address dump in (fresh, walk_prefix fresh.by_path entry)
