-- ===== src/Vmm/Translate.antt =====
-- A page that was mapped is translated to its frame.
use strixos.Prelude.{
  ℕ, ◌+◌, ◌*◌, ◌/◌, ◌%◌, ◌^◌, ◌<◌, ◌≡◌, ◌≢◌, refl, sym, ◌∙◌, ap, ◌==◌, ==_ne, ==_refl,
  if◌then◌else◌, Bool, true, false, not, [], ◌∷◌, add64, arith,
}
use mathlib.Core.Bool.{true≢false}
use strixos.Pmm.{Pmm}
use strixos.Pmm.Invariant.{IsValid}
use strixos.Vmm.{
  is_present, is_huge, frame, index, slot, put_word, ensure, page_entry, map_page, get_phys,
}
use strixos.Vmm.Step.{Owned, entry_at, IsTree, ensure-Stepped}

-- The entries that `get_phys` reads give the result, if none of the tables above is a huge page.
get_phys-entries :
    (root : ℕ) (ram : ℕ → ℕ) (va e4 e3 e2 e1 : ℕ)
    → ram (slot root (index 39 va)) ≡ e4
    → ram (slot e4 (index 30 va)) ≡ e3
    → ram (slot e3 (index 21 va)) ≡ e2
    → ram (slot e2 (index 12 va)) ≡ e1
    → is_present e4 ≡ true
    → is_present e3 ≡ true
    → is_huge e3 ≡ false
    → is_present e2 ≡ true
    → is_huge e2 ≡ false
    → is_present e1 ≡ true
    → get_phys root ram va ≡ add64 (frame e1) (va % 4096)
unfolding get_phys
get_phys-entries root ram va e4 e3 e2 e1 r4 r3 r2 r1 h4 h3 s3 h2 s2 h1 =
    rw (get_phys, r4, r3, r2, r1, h4, h3, s3, h2, s2, h1) refl

-- The entry of a page: its frame, and that it is present.
page_entry-frame :
    (pa flags : ℕ)
    → flags < 2 ^ 63
    → (frame (page_entry pa flags) ≡ frame pa) × (is_present (page_entry pa flags) ≡ true)
unfolding page_entry
page_entry-frame pa flags low =
    let no_nx : (flags / 2 ^ 63 % 2 == 1) ≡ false = ground arith in
    (rw no_nx (omega arith), rw no_nx (ground arith))

-- What a successful `map_page` went through.
record Mapping (root : ℕ) (p : Pmm) (va pa flags : ℕ) (q : Pmm) : Type 0 where
  p4 : Pmm
  p3 : Pmm
  p2 : Pmm
  done4 : ensure p (slot root (index 39 va)) ≡ (true, p4)
  done3 : ensure p4 (slot (p4.ram (slot root (index 39 va))) (index 30 va)) ≡ (true, p3)
  done2 :
      ensure p3
        (slot (p3.ram (slot (p4.ram (slot root (index 39 va))) (index 30 va))) (index 21 va))
      ≡ (true, p2)
  small3 : is_huge (p4.ram (slot (p4.ram (slot root (index 39 va))) (index 30 va))) ≡ false
  small2 :
      is_huge (
        p3.ram
          (slot (p3.ram (slot (p4.ram (slot root (index 39 va))) (index 30 va))) (index 21 va)))
      ≡ false
  result :
      put_word p2
        (slot
          (p2.ram
            (slot (p3.ram (slot (p4.ram (slot root (index 39 va))) (index 30 va))) (index 21 va)))
          (index 12 va))
        (page_entry pa flags)
      ≡ q

-- A test that fails for success.
past :
    (b : Bool) (x : Pmm) (r : Bool × Pmm) (q : Pmm)
    → (if b then (false, x) else r) ≡ (true, q)
    → (b ≡ false) × (r ≡ (true, q))
past true x r q e = absurd (true≢false (sym (ap (λ r. r.0) e)))
past false x r q e = (refl, e)

succeeded : (r : Bool × Pmm) → not r.0 ≡ false → r ≡ (true, r.1)
succeeded (true, p) e = refl
succeeded (false, p) e = absurd (true≢false e)

map_page-Mapping :
    (root : ℕ) (p : Pmm) (va pa flags : ℕ) (q : Pmm)
    → map_page root p va pa flags ≡ (true, q)
    → Mapping root p va pa flags q
unfolding map_page
map_page-Mapping root p va pa flags q done =
    let r4 = ensure p (slot root (index 39 va)) in
    let at3 = slot (r4.1.ram (slot root (index 39 va))) (index 30 va) in
    let r3 = ensure r4.1 at3 in
    let at2 = slot (r3.1.ram at3) (index 21 va) in
    let r2 = ensure r3.1 at2 in
    let at1 = slot (r2.1.ram at2) (index 12 va) in
    let end : Bool × Pmm = (true, put_word r2.1 at1 (page_entry pa flags)) in
    let after1 : Bool × Pmm = if is_present (r2.1.ram at1) then (false, r2.1) else end in
    let after2 : Bool × Pmm = if not r2.0 then (false, r2.1) else after1 in
    let after3 : Bool × Pmm = if is_huge (r3.1.ram at2) then (false, r3.1) else after2 in
    let after4 : Bool × Pmm = if not r3.0 then (false, r3.1) else after3 in
    let after5 : Bool × Pmm = if is_huge (r4.1.ram at3) then (false, r4.1) else after4 in
    let a = past (not r4.0) r4.1 after5 q done in
    let b = past (is_huge (r4.1.ram at3)) r4.1 after4 q a.1 in
    let c = past (not r3.0) r3.1 after3 q b.1 in
    let d = past (is_huge (r3.1.ram at2)) r3.1 after2 q c.1 in
    let e = past (not r2.0) r2.1 after1 q d.1 in
    let f = past (is_present (r2.1.ram at1)) r2.1 end q e.1 in
    record {
      p4 = r4.1;
      p3 = r3.1;
      p2 = r2.1;
      done4 = succeeded r4 a.0;
      done3 = succeeded r3 c.0;
      done2 = succeeded r2 e.0;
      small3 = b.0;
      small2 = d.0;
      result = ap (λ r. r.1) f.1;
    }

-- Words of different pages have different addresses.
slots_apart :
    (s t i j : ℕ) → s % 4096 ≡ 0 → t % 4096 ≡ 0 → s ≢ t → i < 512 → j < 512 → s + 8 * i ≢ t + 8 * j
slots_apart s t i j s_aligned t_aligned ne i_lt j_lt e = ne (omega (arith, s_aligned, t_aligned, e))

aligned : (e : ℕ) → frame e % 4096 ≡ 0
aligned e = omega arith

-- A word of another page stays where one is written.
put_word_away :
    (p : Pmm) (s t i j v : ℕ)
    → s % 4096 ≡ 0
    → t % 4096 ≡ 0
    → s ≢ t
    → i < 512
    → j < 512
    → (put_word p (t + 8 * j) v).ram (s + 8 * i) ≡ p.ram (s + 8 * i)
put_word_away p s t i j v s_aligned t_aligned ne i_lt j_lt =
    let away : (s + 8 * i == t + 8 * j) ≡ false =
      ==_ne (s + 8 * i) (t + 8 * j) (slots_apart s t i j s_aligned t_aligned ne i_lt j_lt) in
    rw away refl

index-lt : (n va : ℕ) → index n va < 512
index-lt n va = omega arith

-- In a valid allocator, with a root that is no free page and tables on the way to `va` that are none
-- and are different from each other: once vmm_map_page has mapped `va` to a physical address, without
-- the flag NX, vmm_get_phys translates `va` to the frame of that address and the offset of `va`.
pub get_phys-map_page :
    (root : ℕ) (p : Pmm) (va pa flags : ℕ) (q : Pmm)
    → IsValid p
    → Owned p (frame root)
    → IsTree p [] (frame root) va (39 ∷ 30 ∷ 21 ∷ [])
    → pa < 2 ^ 64
    → flags < 2 ^ 63
    → map_page root p va pa flags ≡ (true, q)
    → get_phys root q.ram va ≡ frame pa + va % 4096
get_phys-map_page root p va pa flags q v own tree small low done =
    let m = map_page-Mapping root p va pa flags q done in
    let t4 = frame root in
    let s4 =
      ensure-Stepped p m.p4 [] t4 va 39 (30 ∷ 21 ∷ []) v own tt (aligned root) tree m.done4 in
    let e4 = entry_at m.p4 t4 39 va in
    let t3 = frame e4 in
    let s3 =
      ensure-Stepped m.p4 m.p3 (t4 ∷ []) t3 va 30 (21 ∷ []) s4.valid s4.next_owned
        (s4.owned t4 own, tt) (aligned e4) s4.below m.done3 in
    let e3 = entry_at m.p3 t3 30 va in
    let t2 = frame e3 in
    let own4 = s3.owned t4 (s4.owned t4 own) in
    let own3 = s3.owned t3 s4.next_owned in
    let s2 =
      ensure-Stepped m.p3 m.p2 (t3 ∷ t4 ∷ []) t2 va 21 [] s3.valid s3.next_owned (own3, (own4, tt))
        (aligned e3) s3.below m.done2 in
    let e2 = entry_at m.p2 t2 21 va in
    let t1 = frame e2 in
    let x = page_entry pa flags in
    let w = put_word m.p2 (t1 + 8 * index 12 va) x in
    let q4 : w.ram (t4 + 8 * index 39 va) ≡ e4 =
      put_word_away m.p2 t4 t1 (index 39 va) (index 12 va) x (aligned root) (aligned e2)
        s2.apart.1.1.0 (index-lt 39 va) (index-lt 12 va)
      ∙ (s2.kept t4 (index 39 va) own4 (aligned root) (index-lt 39 va) (
            slots_apart t4 t2 (index 39 va) (index 21 va) (aligned root) (aligned e3) s3.apart.1.0
              (index-lt 39 va) (index-lt 21 va))
          ∙ s3.kept t4 (index 39 va) (s4.owned t4 own) (aligned root) (index-lt 39 va) (
              slots_apart t4 t3 (index 39 va) (index 30 va) (aligned root) (aligned e4) s4.apart.0
                (index-lt 39 va) (index-lt 30 va))) in
    let q3 : w.ram (t3 + 8 * index 30 va) ≡ e3 =
      put_word_away m.p2 t3 t1 (index 30 va) (index 12 va) x (aligned e4) (aligned e2) s2.apart.1.0
        (index-lt 30 va) (index-lt 12 va)
      ∙ s2.kept t3 (index 30 va) own3 (aligned e4) (index-lt 30 va) (
          slots_apart t3 t2 (index 30 va) (index 21 va) (aligned e4) (aligned e3) s3.apart.0
            (index-lt 30 va) (index-lt 21 va)) in
    let q2 : w.ram (t2 + 8 * index 21 va) ≡ e2 =
      put_word_away m.p2 t2 t1 (index 21 va) (index 12 va) x (aligned e3) (aligned e2) s2.apart.0
        (index-lt 21 va) (index-lt 12 va) in
    let self : (t1 + 8 * index 12 va == t1 + 8 * index 12 va) ≡ true =
      ==_refl (t1 + 8 * index 12 va) in
    let q1 : w.ram (t1 + 8 * index 12 va) ≡ x = rw self refl in
    let (named, there) = page_entry-frame pa flags low in
    let found : get_phys root w.ram va ≡ add64 (frame x) (va % 4096) =
      get_phys-entries root w.ram va e4 e3 e2 x q4 q3 q2 q1 s4.present s3.present
        (s3.small m.small3) s2.present (s2.small m.small2) there in
    let sum : add64 (frame pa) (va % 4096) ≡ frame pa + va % 4096 = omega arith in
    ap (λ r. get_phys root r.ram va) (sym m.result)
    ∙ (found ∙ (ap (λ f. add64 f (va % 4096)) named ∙ sum))
