-- ===== src/UdpReceiver/Save.antt =====
-- `save_records` of udp_socket/src/receiver.c and the bytes of a record. What the write calls
-- answer, at most as many bytes as they are given, is a list.
use mathlib.Core.List.{append_assoc, append-nil}
use aceteam_bachelor_thesis.Prelude.{
  ℕ, zero, suc, ◌+◌, ◌*◌, ◌/◌, ◌%◌, ◌≤◌, ◌≡◌, ◌≢◌, inl, inr, refl, sym, ap, ◌∙◌, Bool-cases, List,
  [], ◌∷◌, ◌++◌, ◌==◌, arith, eintr, eio, if◌then◌else◌, length, take, drop, take-append-drop,
  length-drop, length-append,
}
use aceteam_bachelor_thesis.UdpReceiver.{SampleRecord}

-- The low `n` bytes of a number, the lowest first: the target's order.
unfoldable pub le_bytes : ℕ → ℕ → List ℕ
le_bytes zero v = []
le_bytes (suc n) v = v % 256 ∷ le_bytes n (v / 256)

-- The 56 bytes of `struct sample_record`.
unfoldable pub record_bytes : SampleRecord → List ℕ
record_bytes r =
    le_bytes 8 r.seq
    ++ (le_bytes 8 r.tx_ns
        ++ (le_bytes 8 r.user_rx_mono_ns
            ++ (le_bytes 8 r.user_rx_real_ns
                ++ (le_bytes 8 r.hw_rx_ns
                    ++ (le_bytes 4 r.flow_id
                        ++ (le_bytes 4 r.len
                            ++ (le_bytes 2 r.flags
                                ++ (le_bytes 2 r.reserved16 ++ le_bytes 4 r.reserved32))))))))

abbrev pub records_bytes : List SampleRecord → List ℕ
records_bytes [] = []
records_bytes (r ∷ rs) = record_bytes r ++ records_bytes rs

length-le_bytes : (n v : ℕ) → length (le_bytes n v) ≡ n
unfolding le_bytes
length-le_bytes zero v = refl
length-le_bytes (suc n) v = ap suc (length-le_bytes n (v / 256))

length-record_bytes : (r : SampleRecord) → length (record_bytes r) ≡ 56
unfolding record_bytes
length-record_bytes r = simp (length-append, length-le_bytes)

pub length-records_bytes : (rs : List SampleRecord) → length (records_bytes rs) ≡ 56 * length rs
length-records_bytes [] = refl
length-records_bytes (r ∷ rs) = omega (
  arith,
  length-append (record_bytes r) (records_bytes rs),
  length-record_bytes r,
  length-records_bytes rs,
)

pub data Write : Type 0 where
  wrote : ℕ → Write
  refused : ℕ → Write

-- What has come into the file, with the return value 0 or -1 and errno; `writing` waits for the
-- answer to a further write of the bytes that are left.
pub data Save : Type 0 where
  saved : List ℕ → Save
  lost : ℕ → List ℕ → Save
  writing : List ℕ → List ℕ → Save

-- The loop, from the bytes behind `cursor` and the bytes in the file.
unfoldable pub write_all : List Write → List ℕ → List ℕ → Save
write_all ws [] file = saved file
write_all [] (c ∷ cs) file = writing (c ∷ cs) file
write_all (refused e ∷ ws) (c ∷ cs) file =
    if e == eintr then write_all ws (c ∷ cs) file else lost e file
write_all (wrote zero ∷ ws) (c ∷ cs) file = lost eio file
write_all (wrote (suc n) ∷ ws) (c ∷ cs) file =
    write_all ws (drop (suc n) (c ∷ cs)) (file ++ take (suc n) (c ∷ cs))

abbrev pub synced : Save → ℕ → Save
synced (saved file) zero = saved file
synced (saved file) (suc e) = lost (suc e) file
synced (lost e file) fsync = lost e file
synced (writing cursor file) fsync = writing cursor file

-- `fsync` is 0, or its error number.
unfoldable pub save_records : List Write → ℕ → List ℕ → Save
save_records ws fsync bytes = synced (write_all ws bytes ([])) fsync

-- The answers that are no interruption.
abbrev pub answers : List Write → ℕ
answers [] = 0
answers (wrote n ∷ ws) = suc (answers ws)
answers (refused e ∷ ws) = (if e == eintr then 0 else 1) + answers ws

-- All of the bytes, or an error with a part of them from the first one on, or the wait for a
-- write, with the bytes that are left and fewer answers than bytes.
abbrev pub Settled : List Write → List ℕ → Save → Type 0
Settled ws bytes (saved file) = file ≡ bytes
Settled ws bytes (lost e file) = (rest : List ℕ) × (file ++ rest ≡ bytes)
Settled ws bytes (writing cursor file) =
    (file ++ cursor ≡ bytes) × (cursor ≢ []) × (answers ws + length cursor ≤ length bytes)

-- The same, behind some bytes in the file.
abbrev Going : List Write → List ℕ → List ℕ → Save → Type 0
Going ws cursor file (saved out) = out ≡ file ++ cursor
Going ws cursor file (lost e out) = (rest : List ℕ) × (out ++ rest ≡ file ++ cursor)
Going ws cursor file (writing left out) =
    (out ++ left ≡ file ++ cursor) × (left ≢ []) × (answers ws + length left ≤ length cursor)

Going-move :
    (ws ws' : List Write) (cursor cursor' file file' : List ℕ) (s : Save)
    → file' ++ cursor' ≡ file ++ cursor
    → answers ws + length cursor' ≤ answers ws' + length cursor
    → Going ws' cursor' file' s
    → Going ws cursor file s
Going-move ws ws' cursor cursor' file file' (saved out) e le g = g ∙ e
Going-move ws ws' cursor cursor' file file' (lost err out) e le (rest, g) = (rest, g ∙ e)
Going-move ws ws' cursor cursor' file file' (writing left out) e le (g, more, few) =
    (g ∙ e, more, omega arith)

write_all-Going :
    (ws : List Write) (cursor file : List ℕ) → Going ws cursor file (write_all ws cursor file)
unfolding write_all
write_all-Going ws [] file = sym (append-nil file)
write_all-Going [] (c ∷ cs) file = (refl, (λ e. cc), omega arith)
write_all-Going (refused e ∷ ws) (c ∷ cs) file = elim (Bool-cases (e == eintr)) [
  | inl again ↦ rw again (
      Going-move (refused e ∷ ws) ws (c ∷ cs) (c ∷ cs) file file _ refl (ground arith)
        (write_all-Going ws (c ∷ cs) file))
  | inr broken ↦ rw broken (c ∷ cs, refl)
]
write_all-Going (wrote zero ∷ ws) (c ∷ cs) file = (c ∷ cs, refl)
write_all-Going (wrote (suc n) ∷ ws) (c ∷ cs) file =
    Going-move (wrote (suc n) ∷ ws) ws (c ∷ cs) (drop n cs) file (file ++ c ∷ take n cs) _
      (append_assoc file (c ∷ take n cs) (drop n cs)
        ∙ ap (λ t. file ++ c ∷ t) (take-append-drop n cs))
      (omega (arith, length-drop n cs)) (write_all-Going ws (drop n cs) (file ++ c ∷ take n cs))

-- `save_records` returns with exactly the given bytes in the file, in their order and once; or it
-- fails and the file holds a part of them from the first byte on; or it waits for a further write,
-- and the writes so far, the interrupted ones left out, with the bytes that are left, are not more
-- than the bytes: as many writes as there are bytes end it, however few each of them takes.
pub save_records-Settled :
    (ws : List Write) (fsync : ℕ) (bytes : List ℕ) → Settled ws bytes (save_records ws fsync bytes)
unfolding save_records
save_records-Settled ws fsync bytes =
    go (write_all ws bytes ([])) fsync (write_all-Going ws bytes ([]))
  where
    go : (s : Save) (f : ℕ) → Going ws bytes ([]) s → Settled ws bytes (synced s f)
    go (saved out) zero g = g
    go (saved out) (suc e) g = ([], append-nil out ∙ g)
    go (lost e out) f g = g
    go (writing left out) f g = g
