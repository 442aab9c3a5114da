-- ===== src/Control/Log/Replay.antt =====
-- What the log file of crates/kalpak-control/src/log_store.rs holds, and what reading it gives.
use mathlib.Core.List.{append_assoc, append-nil}
use kalpakdb.Prelude.{
  ℕ, ◌+◌, ◌≡◌, ◌<◌, refl, sym, ap, ◌∙◌, Bool, true, none, some, List, [], ◌∷◌, ◌++◌, Bytes, length,
  length-append, All, ok, err, arith, subst,
}
use kalpakdb.Prelude.Map.{Map}
use kalpakdb.Prelude.Lines.{
  lines, line_of, no_newline, lines-line, lines-tail, ends_line-line, ends_line-tail,
}
use kalpakdb.Control.Machine.{Entry}
use kalpakdb.Control.Log.{Format, entry_line, log_bytes, with_entry, read_lines}
use kalpakdb.Control.Log.Index.{put, retain, values, Above, Sorted, Sorted-put}

module _ {P : Type 0} where
  unfoldable pub with_all : Map ℕ (Entry P) → List (Entry P) → Map ℕ (Entry P)
  with_all log [] = log
  with_all log (e ∷ es) = with_all (with_entry log e) es

  pub with_all-append :
      (log : Map ℕ (Entry P)) (a b : List (Entry P))
      → with_all log (a ++ b) ≡ with_all (with_all log a) b
  unfolding with_all
  with_all-append log [] b = refl
  with_all-append log (e ∷ a) b = with_all-append (with_entry log e) a b

  -- Each entry stands under its own index.
  unfoldable pub Indexed : Map ℕ (Entry P) → Type 0
  Indexed [] = Unit
  Indexed ((i, e) ∷ m) = (i ≡ e.log_id.index) × Indexed m

  Indexed-put : (e : Entry P) (m : Map ℕ (Entry P)) → Indexed m → Indexed (with_entry m e)
  unfolding put Indexed
  Indexed-put e [] x = (refl, tt)
  Indexed-put e ((j, f) ∷ m) x = ground (arith, Indexed-put e m x.1)

  pub Indexed-retain : (p : ℕ → Bool) (m : Map ℕ (Entry P)) → Indexed m → Indexed (retain p m)
  unfolding retain Indexed
  Indexed-retain p [] x = tt
  Indexed-retain p ((j, f) ∷ m) x = ground (arith, Indexed-retain p m x.1)

  pub Indexed-with_all :
      (es : List (Entry P)) (m : Map ℕ (Entry P)) → Indexed m → Indexed (with_all m es)
  unfolding with_all
  Indexed-with_all [] m x = x
  Indexed-with_all (e ∷ es) m x = Indexed-with_all es (with_entry m e) (Indexed-put e m x)

  pub Sorted-with_all :
      (es : List (Entry P)) (m : Map ℕ (Entry P)) → Sorted m → Sorted (with_all m es)
  unfolding with_all
  Sorted-with_all [] m x = x
  Sorted-with_all (e ∷ es) m x =
      Sorted-with_all es (with_entry m e) (Sorted-put e.log_id.index e m x)

  Sorted-before :
      (j i : ℕ) (w v : Entry P) (m r : Map ℕ (Entry P))
      → Sorted ((j, w) ∷ (m ++ (i, v) ∷ r))
      → j < i
  unfolding Sorted Above
  Sorted-before j i w v [] r s = s.0
  Sorted-before j i w v ((k, u) ∷ m) r s = omega (arith, s.0, Sorted-before k i u v m r s.1)

  put-last :
      (i : ℕ) (v : Entry P) (m r : Map ℕ (Entry P))
      → Sorted (m ++ (i, v) ∷ r)
      → put i v m ≡ m ++ (i, v) ∷ []
  unfolding put Sorted
  put-last i v [] r s = refl
  put-last i v ((j, w) ∷ m) r s = ground (arith, Sorted-before j i w v m r s, put-last i v m r s.1)

  -- Reading back the values of a sorted log gives the log.
  pub with_all-values :
      (m r : Map ℕ (Entry P)) → Sorted (m ++ r) → Indexed r → with_all m (values r) ≡ m ++ r
  unfolding with_all values Indexed
  with_all-values m [] s x = sym (append-nil m)
  with_all-values m ((i, v) ∷ r) s x =
      ap (λ log. with_all log (values r)) (ap (λ k. put k v m) (sym x.0) ∙ put-last i v m r s)
      ∙ with_all-values (m ++ (i, v) ∷ []) r (subst Sorted (sym (append_assoc m ((i, v) ∷ []) r)) s)
          x.1
      ∙ append_assoc m ((i, v) ∷ []) r

module _ {V P : Type 0} (format : Format V P) where
  -- An entry's JSON has no newline, and reading its line gives the entry.
  pub record Reads (e : Entry P) : Type 0 where
    pub text : no_newline (format.write_entry e) ≡ true
    pub law : format.read_entry (entry_line format e) ≡ some e

  pub log_bytes-append :
      (a b : List (Entry P)) → log_bytes format (a ++ b) ≡ log_bytes format a ++ log_bytes format b
  unfolding log_bytes
  log_bytes-append [] b = refl
  log_bytes-append (e ∷ a) b =
      ap (λ rest. entry_line format e ++ rest) (log_bytes-append a b)
      ∙ sym (append_assoc (entry_line format e) (log_bytes format a) (log_bytes format b))

  -- Reading the lines of some entries, and then the rest of a file.
  pub read_lines-log_bytes :
      (es : List (Entry P)) (log : Map ℕ (Entry P)) (n : ℕ) (rest : Bytes)
      → All Reads es
      → read_lines format log n (lines (log_bytes format es ++ rest))
        ≡ read_lines format (with_all log es) (n + length (log_bytes format es)) (lines rest)
  unfolding log_bytes with_all read_lines
  read_lines-log_bytes [] log n rest reads =
      ap (λ k. read_lines format log k (lines rest)) (omega arith)
  read_lines-log_bytes (e ∷ es) log n rest (r, reads) =
      let split = lines-line (format.write_entry e) (log_bytes format es ++ rest) r.text in
      rw
        (
          append_assoc (entry_line format e) (log_bytes format es) rest,
          split,
          ends_line-line (format.write_entry e),
          r.law,
          read_lines-log_bytes es (with_entry log e) (n + length (entry_line format e)) rest reads,
          length-append (entry_line format e) (log_bytes format es),
        )
        (ap (λ k. read_lines format (with_all (with_entry log e) es) k (lines rest)) (omega arith))

  -- A line without its newline is not read.
  pub read_lines-tail :
      (log : Map ℕ (Entry P)) (n : ℕ) (tail : Bytes)
      → no_newline tail ≡ true
      → read_lines format log n (lines tail) ≡ ok (log, n)
  unfolding read_lines lines
  read_lines-tail log n [] h = refl
  read_lines-tail log n (b ∷ bs) h = rw (lines-tail b bs h, ends_line-tail (b ∷ bs) h)

  -- A complete line that is no entry makes the log unreadable, whatever follows.
  pub read_lines-corrupt :
      (log : Map ℕ (Entry P)) (n : ℕ) (text rest : Bytes)
      → no_newline text ≡ true
      → format.read_entry (line_of text) ≡ none
      → read_lines format log n (lines (line_of text ++ rest)) ≡ err "invalid entry"
  unfolding read_lines
  read_lines-corrupt log n text rest h bad = rw (lines-line text rest h, ends_line-line text, bad)
