-- ===== src/Memory/Cache/Refine.antt =====
-- `Read` of src/core/src/CachedMemorySource.cpp against the source behind the cache.
use zircon_dumper.Prelude.{
  ℕ, zero, suc, ◌+◌, ◌-◌, ◌*◌, ◌/◌, ◌%◌, ◌^◌, ◌≤◌, ◌<◌, ◌≡◌, ◌≢◌, refl, sym, ap, Bool, true, false,
  none, [], ◌++◌, arith, length, take, drop, min, leb, ◌==◌, Bool-cases, inl, inr, ◌⊎◌,
  Option-cases, length-take, length-drop, length-append, ◌∙◌,
}
use zircon_dumper.Prelude.Preds.{Bytes, IsU64}
use zircon_dumper.Memory.Source.{
  Source, View, Shows, prefix_read, prefix_read-full, prefix_read-part,
}
use zircon_dumper.Memory.Cache.{
  Cache, page_size, slot_of, served, fetch_page, round, copy_part, read_loop, read,
}
use zircon_dumper.Memory.Cache.Coherent.{
  page_bytes, Holds, IsCoherent, fetch_page-Fetched, take-drop-take,
}

-- A page is readable as a whole or not at all.
abbrev pub IsPaged : View → Type 0
IsPaged v = (x y : ℕ) → x / page_size ≡ y / page_size → v x ≡ none → v y ≡ none

-- The part that one round copies is what the view has there. It is full if the loop goes on, and
-- if it stops, pages being whole, nothing is mapped there.
record Copied (v : View) (cur want : ℕ) (part : Bytes) (more : Bool) : Type 0 where
  part_is : part ≡ prefix_read v cur (length part)
  part_le : length part ≤ want
  full : more ≡ true → length part ≡ want
  stopped : IsPaged v → more ≡ false → (part ≡ []) × (v cur ≡ none)

prefix_read-all :
    (v : View) (a n : ℕ)
    → a + n ≤ 2 ^ 64
    → ((x : ℕ) → a ≤ x → x < a + n → v x ≢ none)
    → length (prefix_read v a n) ≡ n
unfolding prefix_read
prefix_read-all v a zero h mapped = refl
prefix_read-all v a (suc zero) h mapped = ground (arith, mapped a (omega arith) (omega arith))
prefix_read-all v a (suc (suc n)) h mapped =
    let next : (a + 1) % 2 ^ 64 ≡ a + 1 = omega arith in
    let rest : length (prefix_read v (a + 1) (suc n)) ≡ suc n =
      prefix_read-all v (a + 1) (suc n) (omega arith)
        (λ x lo hi. mapped x (omega arith) (omega arith)) in
    ground (arith, next, mapped a (omega arith) (omega arith), rest)

prefix_read-none : (v : View) (a n : ℕ) → v a ≡ none → prefix_read v a n ≡ []
unfolding prefix_read
prefix_read-none v a zero e = refl
prefix_read-none v a (suc n) e = rw (e, prefix_read)

page_bytes-cases :
    (v : View) (page i : ℕ)
    → IsPaged v
    → page < 2 ^ 52
    → i < page_size
    → (length (page_bytes v page) ≡ page_size)
      ⊎ ((length (page_bytes v page) ≡ 0) × (v (page * page_size + i) ≡ none))
page_bytes-cases v page i paged hp hi = elim (Option-cases (v (page * page_size))) [
  | inl e ↦ inr (
    rw (prefix_read-none v (page * page_size) page_size e) refl,
    paged (page * page_size) (page * page_size + i) (omega arith) e,
  )
  | inr (b, e) ↦ inl (
      prefix_read-all v (page * page_size) page_size (omega arith) (λ x lo hi gone.
        let bad : v (page * page_size) ≡ none = paged x (page * page_size) (omega arith) gone in
        cc))
]

take-prefix_read :
    (v : View) (xs : Bytes) (n page i k : ℕ)
    → page < 2 ^ 52
    → i < page_size
    → take n xs ≡ page_bytes v page
    → n ≡ length (page_bytes v page)
    → i + k ≤ n
    → take k (drop i xs) ≡ prefix_read v (page * page_size + i) k
take-prefix_read v xs n page i k hp hi same count h =
    let whole : (page * page_size + i) % 2 ^ 64 ≡ page * page_size + i = omega arith in
    let part : take k (drop i (page_bytes v page))
        ≡ prefix_read v ((page * page_size + i) % 2 ^ 64) k =
      prefix_read-part v (page * page_size) page_size i k (omega arith) (omega arith) in
    sym (take-drop-take n i k xs h) ∙ rw same (rw whole at part)

-- A full read followed by what comes next is one read.
prefix_read-join :
    (v : View) (cur m k : ℕ) (part bytes : Bytes)
    → IsU64 cur
    → part ≡ prefix_read v cur (length part)
    → length part + m ≡ k
    → bytes ≡ prefix_read v ((cur + length part) % 2 ^ 64) m
    → part ++ bytes ≡ prefix_read v cur k
prefix_read-join v cur m k part bytes u first e next =
    cc (first, next, prefix_read-full v cur (length part) m k u e (sym (ap length first)))

leb-false : (a b : ℕ) → leb a b ≡ false → b < a
leb-false a b h = ground arith

module _ {S : Type 0} where
  copy_part-Copied :
      (v : View) (c : Cache S) (page i want : ℕ)
      → page < 2 ^ 52
      → i < page_size
      → want ≤ page_size - i
      → Holds v c (slot_of c page) page
      → Copied v
          (page * page_size + i)
          want
          (copy_part c page i want (served c (slot_of c page))).0
          (copy_part c page i want (served c (slot_of c page))).1
  unfolding copy_part
  copy_part-Copied v c page i want hp hi hw hold =
      let slot = slot_of c page in
      let gap = λ (paged : IsPaged v). page_bytes-cases v page i paged hp hi in
      elim (Bool-cases (c.valid slot == 0)) [
        | inl empty ↦ rw empty record {
          part_is = unfold prefix_read in refl;
          part_le = omega arith;
          full = λ e. cc;
          stopped = λ paged e. (refl, ground (arith, gap paged, hold.count));
        }
        | inr there ↦ rw there (elim (Bool-cases (leb (c.valid slot) i)) [
          | inl past ↦ rw past record {
            part_is = unfold prefix_read in refl;
            part_le = omega arith;
            full = λ e. cc;
            stopped = λ paged e. (refl, ground (arith, gap paged, hold.count));
          }
          | inr within ↦
              let k = min want (c.valid slot - i) in
              let part = take k (drop i (c.contents slot)) in
              let part_eq : part ≡ prefix_read v (page * page_size + i) k =
                take-prefix_read v (c.contents slot) (c.valid slot) page i k hp hi hold.same
                  hold.count (ground arith) in
              let size : length part ≡ k = omega (
                arith,
                length-take k (drop i (c.contents slot)),
                length-drop i (c.contents slot),
                length-take (c.valid slot) (c.contents slot),
                ap length hold.same,
                hold.count,
                leb-false _ _ within,
              ) in
              rw within record {
                part_is = rw size part_eq;
                part_le = ground (arith, size);
                full = λ e. ground (arith, size);
                stopped = λ paged e. ground (arith, gap paged, hold.count);
              }
        ])
      ]

  -- What the loop of `Read` gives: the cache stays coherent, and every byte is the view's.
  record Served (v : View) (c c' : Cache S) (cur rest : ℕ) (bytes : Bytes) : Type 0 where
    coherent : IsCoherent v c'
    inner_kept : c'.inner ≡ c.inner
    bytes_are : bytes ≡ prefix_read v cur (length bytes)
    whole : IsPaged v → bytes ≡ prefix_read v cur rest

  record Round (v : View) (c c' : Cache S) (cur want : ℕ) (part : Bytes) (more : Bool)
      : Type 0 where
    coherent : IsCoherent v c'
    inner_kept : c'.inner ≡ c.inner
    copied : Copied v cur want part more

  round-Round :
      (src : Source S) (v : View) (c : Cache S) (addr done size : ℕ)
      → Shows src c.inner v
      → IsCoherent v c
      → Round v c
          (round src c addr done size).0
          ((addr + done) % 2 ^ 64)
          (min (size - done) (page_size - (addr + done) % 2 ^ 64 % page_size))
          (round src c addr done size).1
          (round src c addr done size).2
  unfolding round
  round-Round src v c addr done size shows co =
      let cur = (addr + done) % 2 ^ 64 in
      let page = cur / page_size in
      let i = cur % page_size in
      let want = min (size - done) (page_size - i) in
      let f = fetch_page-Fetched src v c page shows (omega arith) co in
      let split : page * page_size + i ≡ cur = omega arith in
      let part =
        copy_part-Copied v (fetch_page src c page).0 page i want (omega arith) (omega arith)
          (omega arith) f.holds in
      record {
        coherent = f.coherent;
        inner_kept = f.inner_kept;
        copied = rw f.returned (rw split at part);
      }

  read_loop-Served :
      (src : Source S) (v : View) (f : ℕ) (c : Cache S) (addr done size : ℕ)
      → Shows src c.inner v
      → IsCoherent v c
      → size - done ≤ f
      → Served v c
          (read_loop src f c addr done size).0
          ((addr + done) % 2 ^ 64)
          (size - done)
          (read_loop src f c addr done size).1
  unfolding read_loop
  read_loop-Served src v zero c addr done size shows co h = record {
    coherent = co;
    inner_kept = refl;
    bytes_are = unfold prefix_read in refl;
    whole = λ _. let e : size - done ≡ 0 = omega arith in rw e (unfold prefix_read in refl);
  }
  read_loop-Served src v (suc f) c addr done size shows co h =
      let r = round-Round src v c addr done size shows co in
      let c' = (round src c addr done size).0 in
      let part = (round src c addr done size).1 in
      let more = (round src c addr done size).2 in
      elim (Bool-cases (leb size done)) [
        | inl full ↦ rw full record {
          coherent = co;
          inner_kept = refl;
          bytes_are = unfold prefix_read in refl;
          whole = λ _. let e : size - done ≡ 0 = ground arith in rw e (unfold prefix_read in refl);
        }
        | inr short ↦ rw short (elim (Bool-cases more) [
          | inr stop ↦ rw stop record {
            coherent = r.coherent;
            inner_kept = r.inner_kept;
            bytes_are = r.copied.part_is;
            whole = λ paged.
                let (p, q) = r.copied.stopped paged stop in
                p ∙ sym (prefix_read-none v _ (size - done) q);
          }
          | inl go ↦
              let ih =
                read_loop-Served src v f c' addr (done + length part) size (rw r.inner_kept shows)
                  r.coherent (omega (arith, r.copied.full go, leb-false _ _ short)) in
              let next : ((addr + done) % 2 ^ 64 + length part) % 2 ^ 64
                  ≡ (addr + (done + length part)) % 2 ^ 64 =
                omega arith in
              let taken = r.copied.full go in
              rw go record {
                coherent = ih.coherent;
                inner_kept = ih.inner_kept ∙ r.inner_kept;
                bytes_are =
                    prefix_read-join v _ _ _ part _ (omega arith) r.copied.part_is
                      (sym (length-append part _)) (rw next ih.bytes_are);
                whole = λ paged.
                    prefix_read-join v _ (size - (done + length part)) (size - done) part _
                      (omega arith) r.copied.part_is (omega arith) (rw next (ih.whole paged));
              }
        ])
      ]

  read-Served :
      (src : Source S) (v : View) (c : Cache S) (addr size : ℕ)
      → Shows src c.inner v
      → IsCoherent v c
      → IsU64 addr
      → Served v c (read src c addr size).0 addr size (read src c addr size).1
  unfolding read
  read-Served src v c addr size shows co u =
      let r = read_loop-Served src v size c addr 0 size shows co (omega arith) in
      let e : (addr + 0) % 2 ^ 64 ≡ addr = omega arith in
      let z : size - 0 ≡ size = omega arith in rw (e, z) at r

  -- Let the slots of the cache agree with what the source shows. A read through the cache keeps
  -- that and leaves the source's state alone, and the bytes that it returns are those that the
  -- source shows at those addresses.
  pub read_sound :
      (src : Source S) (v : View) (c : Cache S) (addr size : ℕ)
      → Shows src c.inner v
      → IsCoherent v c
      → IsU64 addr
      → IsCoherent v (read src c addr size).0
        × ((read src c addr size).0.inner ≡ c.inner)
        × ((read src c addr size).1 ≡ prefix_read v addr (length (read src c addr size).1))
  read_sound src v c addr size shows co u =
      let r = read-Served src v c addr size shows co u in (r.coherent, r.inner_kept, r.bytes_are)

  -- Let the source show `v`, let every slot of the cache that has a tag hold what `v` has in that
  -- page, and let each page of `v` be readable as a whole or not at all. Then a read through the
  -- cache returns exactly the bytes that the source returns for the same address and size. A slot
  -- that holds stale bytes is outside the theorem.
  pub read-refines :
      (src : Source S) (v : View) (c : Cache S) (addr size : ℕ)
      → Shows src c.inner v
      → IsCoherent v c
      → IsU64 addr
      → IsPaged v
      → (read src c addr size).1 ≡ src.read c.inner addr size
  read-refines src v c addr size shows co u paged =
      let r = read-Served src v c addr size shows co u in r.whole paged ∙ sym (shows addr size u)
