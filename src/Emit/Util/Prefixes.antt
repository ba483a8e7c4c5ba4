-- ===== src/Emit/Util/Prefixes.antt =====
-- CppPrefixFor of src/emit/src/Util.cpp with the map that it keeps from call to call.
use zircon_dumper.Prelude.{
  ℕ, ◌≡◌, refl, ap, ◌∙◌, subst, Bool, true, false, not, Option, none, some, List, [], ◌∷◌, ◌==◌,
  if◌then◌else◌, arith, Bool-cases, inl, inr,
}
use zircon_dumper.Ir.{Struct, Dump}
use zircon_dumper.Emit.Util.{
  index_packages, PrefixCache, no_cache, is_stale, refreshed, walk_prefix, cpp_prefix_for,
}
use zircon_dumper.Emit.Util.Walk.{
  ByPath, Gives, if-Gives, index_packages-IsIndexed, walk_prefix-Gives, Gives-some,
}

-- What CppPrefixFor returns for a dump with no map kept from an earlier call.
unfoldable prefix_of : Dump → Struct → Option ℕ
prefix_of dump s =
    if not (s.cpp_prefix == 0)
    then some s.cpp_prefix
    else if not s.is_class
    then some b'F'
    else walk_prefix (index_packages dump.packages []) s

prefix_of-Gives : (dump : Dump) (s : Struct) → Gives (prefix_of dump s)
unfolding prefix_of
prefix_of-Gives dump s = if-Gives (not (s.cpp_prefix == 0)) _ _ tt (
    if-Gives (not s.is_class) _ _ tt
      (walk_prefix-Gives _ s (index_packages-IsIndexed dump.packages [] tt)))

-- The dumps by their address.
module _ (dumps : ℕ → Dump) where
  -- The map kept is that of the dump at the address kept.
  abbrev IsKept : Option ℕ → ByPath → Type 0
  IsKept none dict = Unit
  IsKept (some a) dict = dict ≡ index_packages (dumps a).packages []

  abbrev IsFresh : PrefixCache → Type 0
  IsFresh cache = IsKept cache.cached_dump cache.by_path

  -- What a call leaves and returns.
  abbrev Returns : PrefixCache × Option ℕ → Option ℕ → Type 0
  Returns (cache, given) prefix = IsFresh cache × (given ≡ prefix)

  if-Returns :
      (b : Bool) (x y : PrefixCache × Option ℕ) (p q : Option ℕ)
      → Returns x p
      → Returns y q
      → Returns (if b then x else y) (if b then p else q)
  if-Returns true x y p q first second = first
  if-Returns false x y p q first second = second

  refreshed-kept :
      (cached : Option ℕ) (dict : ByPath) (a : ℕ)
      → IsKept cached dict
      → let fresh = refreshed (record { cached_dump = cached; by_path = dict }) a (dumps a) in
        IsFresh fresh × (fresh.by_path ≡ index_packages (dumps a).packages [])
  unfolding refreshed is_stale
  refreshed-kept none dict a ok = (refl, refl)
  refreshed-kept (some b) dict a ok = elim (Bool-cases (b == a)) [
    | inl same ↦
        let eq : b ≡ a = ground (arith, same) in
        rw same (ok, subst (λ (x : ℕ). dict ≡ index_packages (dumps x).packages []) eq ok)
    | inr other ↦ rw other (refl, refl)
  ]

  cpp_prefix_for-Returns :
      (cache : PrefixCache) (a : ℕ) (s : Struct)
      → IsFresh cache
      → Returns (cpp_prefix_for cache a (dumps a) s) (prefix_of (dumps a) s)
  unfolding cpp_prefix_for prefix_of
  cpp_prefix_for-Returns cache a s ok =
      let (fresh, by_path) = refreshed-kept cache.cached_dump cache.by_path a ok in
      if-Returns (not (s.cpp_prefix == 0)) _ _ _ _ (ok, refl)
        (if-Returns (not s.is_class) _ _ _ _ (ok, refl)
          (fresh, ap (λ (d : ByPath). walk_prefix d s) by_path))

  -- The statics after calls, each of a dump by its address and a record.
  unfoldable pub after_calls : List (ℕ × Struct) → PrefixCache → PrefixCache
  after_calls [] cache = cache
  after_calls ((a, s) ∷ calls) cache = after_calls calls (cpp_prefix_for cache a (dumps a) s).0

  after_calls-IsFresh :
      (calls : List (ℕ × Struct)) (cache : PrefixCache)
      → IsFresh cache
      → IsFresh (after_calls calls cache)
  unfolding after_calls
  after_calls-IsFresh [] cache ok = ok
  after_calls-IsFresh ((a, s) ∷ calls) cache ok =
      after_calls-IsFresh calls _ (cpp_prefix_for-Returns cache a s ok).0

  -- After any calls, CppPrefixFor comes to a prefix for every record of every dump, also where super
  -- classes go round, and it is the prefix that the first call of all would return. Every address
  -- holds the same dump at every call.
  pub cpp_prefix_for-some :
      (calls : List (ℕ × Struct)) (a : ℕ) (s : Struct)
      → (c : ℕ) × ((cpp_prefix_for (after_calls calls no_cache) a (dumps a) s).1 ≡ some c)
        × ((cpp_prefix_for no_cache a (dumps a) s).1 ≡ some c)
  cpp_prefix_for-some calls a s =
      let kept = after_calls-IsFresh calls no_cache tt in
      let later = (cpp_prefix_for-Returns (after_calls calls no_cache) a s kept).1 in
      let first = (cpp_prefix_for-Returns no_cache a s tt).1 in
      let (c, given) = Gives-some (prefix_of (dumps a) s) (prefix_of-Gives (dumps a) s) in
      (c, later ∙ given, first ∙ given)
