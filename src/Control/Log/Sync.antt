-- ===== src/Control/Log/Sync.antt =====
-- The Raft log in memory and in its files (crates/kalpak-control/src/log_store.rs): what the
-- operations keep in step, and what a restart reads.
use mathlib.Core.List.{append-nil}
use kalpakdb.Prelude.{
  ◌+◌, ◌≡◌, refl, sym, ap, ◌∙◌, true, Option, none, some, List, [], ◌++◌, Bytes, length,
  take_append, All, Result, ok, err, ◌>>=◌, arith, ◌≢◌,
}
use kalpakdb.Prelude.Lines.{lines, line_of, no_newline}
use kalpakdb.Control.Machine.{Entry}
use kalpakdb.Control.Log.{
  Meta, Inner, Format, meta_of_inner, log_bytes, read_lines, read_meta_file, open_log,
}
use kalpakdb.Control.Log.Replay.{
  with_all, Reads, read_lines-log_bytes, read_lines-tail, read_lines-corrupt,
}

-- `fails` stands for a step that fails whatever it is given.
then-fails :
    {E A B : Type 0} {b : B} {e : E} (r : Result E A) (fails : A → Result E B)
    → ((a : A) → fails a ≡ err e)
    → (r >>= fails) ≢ ok b
then-fails (ok a) fails h = λ q. absurd (ground (arith, h a))
then-fails (err e) fails h = λ q. absurd (ground arith)

module _ {V P : Type 0} (format : Format V P) where
  -- The files hold the history of the log and its metadata.
  pub record InSync (history : List (Entry P)) (s : Inner V P) : Type 0 where
    pub durable : s.dir ≡ true
    pub readable : All (Reads format) history
    pub file : s.log_file ≡ some (log_bytes format history)
    pub log : s.log ≡ with_all [] history
    pub metadata : read_meta_file format s.meta_file ≡ ok (meta_of_inner s)

  -- Reading a log file that ends in a torn line.
  pub read_file :
      (history : List (Entry P)) (tail : Bytes)
      → All (Reads format) history
      → no_newline tail ≡ true
      → read_lines format [] 0 (lines (log_bytes format history ++ tail))
        ≡ ok (with_all [] history, length (log_bytes format history))
  read_file history tail reads torn =
      read_lines-log_bytes format history [] 0 tail reads
      ∙ read_lines-tail format (with_all [] history) (0 + length (log_bytes format history)) tail
          torn
      ∙ ap (λ n. ok (with_all [] history, n)) (omega arith)

  pub open_log-tail :
      (history : List (Entry P)) (tail : Bytes) (meta_file : Option Bytes) (meta : Meta V)
      → All (Reads format) history
      → no_newline tail ≡ true
      → read_meta_file format meta_file ≡ ok meta
      → open_log format meta_file (some (log_bytes format history ++ tail))
        ≡ ok (record {
          log = with_all [] history;
          last_purged = meta.last_purged;
          vote = meta.vote;
          committed = meta.committed;
          dir = true;
          log_file = some (log_bytes format history);
          meta_file = meta_file;
        })
  unfolding open_log
  open_log-tail history tail meta_file meta reads torn law =
      rw (law, read_file history tail reads torn, take_append (log_bytes format history) tail)

  pub in_step :
      (history : List (Entry P)) (s : Inner V P)
      → InSync history s
      → ◌≡◌ {A = Inner V P}
          (record s {
            log = with_all [] history;
            dir = true;
            log_file = some (log_bytes format history);
          })
          s
  in_step history s v = ground (arith, v.log, v.durable, v.file)

  -- A restart reads the store that was in memory.
  pub reopen :
      (history : List (Entry P)) (s : Inner V P)
      → InSync history s
      → open_log format s.meta_file s.log_file ≡ ok s
  unfolding no_newline
  reopen history s v =
      ap (open_log format s.meta_file)
        (v.file ∙ ap some (sym (append-nil (log_bytes format history))))
      ∙ open_log-tail history [] s.meta_file (meta_of_inner s) v.readable refl v.metadata
      ∙ ap ok (in_step history s v)

  -- A log file in which a complete line is no entry does not open, whatever good entries stand
  -- before it and whatever follows it.
  pub open-corrupt :
      (es : List (Entry P)) (text rest : Bytes) (meta_file : Option Bytes)
      → All (Reads format) es
      → no_newline text ≡ true
      → format.read_entry (line_of text) ≡ none
      → (s : Inner V P)
      → open_log format meta_file (some (log_bytes format es ++ (line_of text ++ rest))) ≢ ok s
  unfolding open_log
  open-corrupt es text rest meta_file reads h bad s =
      rw
        (
          read_lines-log_bytes format es [] 0 (line_of text ++ rest) reads,
          read_lines-corrupt format (with_all [] es) (0 + length (log_bytes format es)) text rest h
              bad,
        )
        (then-fails (read_meta_file format meta_file) (λ meta. err "invalid entry") (λ meta. refl))
