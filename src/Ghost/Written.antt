-- ===== src/Ghost/Written.antt =====
-- GhostFile::write stays inside its buffer of 0x2800 bytes.
use mathlib.Core.Option.{some-injective}
use mkw_sp.Base.{
  ℕ, ◌+◌, ◌-◌, ◌%◌, ◌^◌, ◌≤◌, ◌<◌, ◌≡◌, List, ◌++◌, Option, none, some, length, take, drop,
  replicate, arith, refl, sym, ◌∙◌, subst, length-append, length-take, length-drop,
  length-replicate, length-set,
}
use mkw_sp.Bytes.{write16}
use mkw_sp.YazEncoder.{bind, encode}
use mkw_sp.YazEncoder.Search.{Gives, bind-Gives, store32-Gives}
use mkw_sp.YazEncoder.Total.{Encoded, encode_total}
use mkw_sp.Ghost.Header.{Platform, header_size}
use mkw_sp.Ghost.Raw.{sp_magic}
use mkw_sp.Ghost.Write.{
  Source, blit, inputs_room, store_crc, finish_file, write, set_members, expert_staff,
}

blit-Gives :
    (raw bytes : List ℕ) (offset : ℕ)
    → offset + length bytes ≤ length raw
    → Gives (λ d. length d ≡ length raw) (blit raw offset bytes)
unfolding blit
blit-Gives raw bytes offset h = (
  take offset raw ++ bytes ++ drop (offset + length bytes) raw,
  ground arith,
  omega (
    arith,
    length-append (take offset raw ++ bytes) (drop (offset + length bytes) raw),
    length-append (take offset raw) bytes,
    length-append (take offset raw) (bytes ++ drop (offset + length bytes) raw),
    length-append bytes (drop (offset + length bytes) raw),
    length-take offset raw,
    length-drop (offset + length bytes) raw,
  ),
)

store_crc-Gives :
    (p : Platform) (raw : List ℕ) (offset : ℕ)
    → offset + 3 < length raw
    → Gives (λ d. length d ≡ length raw) (store_crc p raw offset)
unfolding store_crc
store_crc-Gives p raw offset h = store32-Gives raw offset (p.crc32 (take offset raw)) h

-- A file in a buffer of 0x2800 bytes: its size is a multiple of 4, has room for the header, the
-- smallest stream and the footers, and is at most that of the buffer.
pub record IsFile (x : ℕ × List ℕ) : Type 0 where
  pub buffer : length x.1 ≡ 0x2800
  pub size_in : (0xf4 ≤ x.0) × (x.0 ≤ 0x2800)
  pub aligned : x.0 % 4 ≡ 0

finish_file-Gives :
    (p : Platform) (footer raw : List ℕ) (n : ℕ)
    → length footer ≡ 0x48
    → length raw ≡ 0x2800
    → 0x10 ≤ n
    → n ≤ inputs_room
    → Gives IsFile (finish_file p footer raw n)
unfolding finish_file
finish_file-Gives p footer raw n f l a b =
    bind-Gives _ _ (store32-Gives raw header_size _ (omega (arith, l))) (λ raw1 l1.
      bind-Gives _ _ (store_crc-Gives p raw1 _ (omega (arith, l, l1))) (λ raw2 l2.
        bind-Gives _ _ (blit-Gives raw2 footer _ (omega (arith, f, l, l1, l2))) (λ raw3 l3.
          bind-Gives _ _ (store32-Gives raw3 _ 0x48 (omega (arith, l, l1, l2, l3))) (λ raw4 l4.
            bind-Gives _ _ (store32-Gives raw4 _ sp_magic (omega (arith, l, l1, l2, l3, l4)))
              (λ raw5 l5.
                bind-Gives _ _ (store_crc-Gives p raw5 _ (omega (arith, l, l1, l2, l3, l4, l5)))
                  (λ raw6 l6. (
                    _,
                    refl,
                    record {
                      buffer = l6 ∙ l5 ∙ l4 ∙ l3 ∙ l2 ∙ l1 ∙ l;
                      size_in = (omega arith, omega arith);
                      aligned = omega arith;
                    },
                  )))))))

length-set_members : (t n : ℕ) (header : List ℕ) → length (set_members t n header) ≡ length header
unfolding set_members write16
length-set_members t n header =
    length-set _ 0x0f _ ∙ length-set _ 0x0e _ ∙ length-set _ 0x0d _ ∙ length-set header 0x0c _

-- What `write` returns: 0, or a file.
abbrev pub Writes : Option (Option (ℕ × List ℕ)) → Type 0
Writes o = (r : Option (ℕ × List ℕ)) × (o ≡ some r) × ((x : ℕ × List ℕ) → r ≡ some x → IsFile x)

finish-Writes :
    (p : Platform) (footer head : List ℕ) (o : Option (Option (ℕ × List ℕ)))
    (r : Option (ℕ × List ℕ))
    → o ≡ some r
    → Encoded inputs_room (0x2800 - (header_size + 4)) r
    → length footer ≡ 0x48
    → length head ≡ header_size + 4
    → Writes (
        bind o (λ r'. elim r' [
          | none ↦ some none
          | some (n, area) ↦ bind (finish_file p footer (head ++ area) n) (λ out. some (some out))
        ]))
finish-Writes p footer head none r e q f l = cc
finish-Writes p footer head (some none) r e q f l = (none, refl, λ x g. cc)
finish-Writes p footer head (some (some (n, area))) r e q f l =
    let (big, small, long) = q n area (sym (some-injective _ _ e)) in
    let (x, runs, file) =
      finish_file-Gives p footer (head ++ area) n f
        (omega (arith, length-append head area, l, long)) big small in
    (some x, rw runs refl, λ y g. subst IsFile (some-injective _ _ g) file)

-- With a header and a footer of their sizes, and inputs of less than 2 GiB, `write` stays inside its
-- buffer and returns: a file, or 0 if the inputs do not fit.
pub write_total :
    (p : Platform) (s : Source)
    → ((header : List ℕ) → length (s.write_header header) ≡ length header)
    → length s.footer ≡ 0x48
    → s.inputs_size ≤ length s.inputs
    → s.inputs_size < 2 ^ 31
    → Writes (write p s)
unfolding write
write_total p s h f a b =
    let header =
      set_members expert_staff s.inputs_size (s.write_header (replicate header_size 0)) in
    let raw = header ++ replicate (0x2800 - header_size) 0 in
    let lh : length header ≡ header_size =
      length-set_members expert_staff s.inputs_size _
      ∙ h _
      ∙ length-replicate {A = ℕ} header_size 0 in
    let lr : length raw ≡ 0x2800 = omega (
      arith,
      length-append header (replicate (0x2800 - header_size) 0),
      lh,
      length-replicate {A = ℕ} (0x2800 - header_size) 0,
    ) in
    let area = drop (header_size + 4) raw in
    let la : length area ≡ 0x2800 - (header_size + 4) =
      omega (arith, length-drop (header_size + 4) raw, lr) in
    let (r, e, q) =
      encode_total s.inputs area s.inputs_size inputs_room a (omega (arith, la)) b (omega arith) in
    finish-Writes p s.footer (take (header_size + 4) raw)
      (encode s.inputs s.inputs_size inputs_room area) r e
      (subst (λ n. Encoded inputs_room n r) la q) f
      (omega (arith, length-take (header_size + 4) raw, lr))
