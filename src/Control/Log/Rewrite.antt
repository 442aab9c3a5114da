-- ===== src/Control/Log/Rewrite.antt =====
-- truncate, purge, save_vote and save_committed of crates/kalpak-control/src/log_store.rs: the
-- files stay in step with the memory, and a crash leaves the old or the new ones.
use kalpakdb.Prelude.{
  ℕ, ◌≡◌, refl, sym, subst, Bool, some, List, [], ◌∷◌, ltb, eqb, All, ok, if_cases, ◌⊎◌, inl, inr,
}
use kalpakdb.Prelude.Map.{Map}
use kalpakdb.Control.Types.{LogId}
use kalpakdb.Control.Machine.{Entry}
use kalpakdb.Control.Snapshot.Store.{Write, written, lost, unsure, replace}
use kalpakdb.Control.Log.{
  Meta, Inner, Format, meta_of_inner, log_bytes, persist_meta, rewrite_log, truncate, purge,
  read_meta_file, open_log, with_entry,
}
use kalpakdb.Control.Log.Index.{put, retain, values, Sorted, Sorted-retain}
use kalpakdb.Control.Log.Replay.{
  with_all, with_all-values, Indexed, Indexed-retain, Indexed-with_all, Sorted-with_all, Reads,
}
use kalpakdb.Control.Log.Sync.{InSync, reopen}

-- The log without the entries from `log_id` on.
abbrev pub before_id : LogId → ℕ → Bool
before_id log_id index = ltb index log_id.index

abbrev pub after_id : LogId → ℕ → Bool
after_id log_id index = ltb log_id.index index

module _ {V P : Type 0} (format : Format V P) where
  AllValues-put :
      (i : ℕ) (e : Entry P) (m : Map ℕ (Entry P))
      → Reads format e
      → All (Reads format) (values m)
      → All (Reads format) (values (put i e m))
  unfolding put values
  AllValues-put i e [] r reads = (r, tt)
  AllValues-put i e ((j, f) ∷ m) r (q, reads) =
      if_cases (λ l. All (Reads format) (values l)) (ltb i j) (λ h. (r, (q, reads)))
        (λ h.
          if_cases (λ l. All (Reads format) (values l)) (eqb i j) (λ h'. (r, reads))
            (λ h'. (q, AllValues-put i e m r reads)))

  AllValues-with_all :
      (es : List (Entry P)) (m : Map ℕ (Entry P))
      → All (Reads format) es
      → All (Reads format) (values m)
      → All (Reads format) (values (with_all m es))
  unfolding with_all
  AllValues-with_all [] m reads kept = kept
  AllValues-with_all (e ∷ es) m (r, reads) kept =
      AllValues-with_all es (with_entry m e) reads (AllValues-put e.log_id.index e m r kept)

  AllValues-retain :
      (p : ℕ → Bool) (m : Map ℕ (Entry P))
      → All (Reads format) (values m)
      → All (Reads format) (values (retain p m))
  unfolding retain values
  AllValues-retain p [] reads = reads
  AllValues-retain p ((j, f) ∷ m) (q, reads) =
      if_cases (λ l. All (Reads format) (values l)) (p j) (λ h. (q, AllValues-retain p m reads))
        (λ h. AllValues-retain p m reads)

  -- What a rewrite of the log file puts there is a history of the log that was kept.
  abbrev kept_history : (ℕ → Bool) → Inner V P → List (Entry P)
  kept_history p s = values (retain p s.log)

  rewritten :
      (p : ℕ → Bool) (history : List (Entry P)) (s : Inner V P)
      → InSync format history s
      → retain p s.log ≡ with_all [] (kept_history p s)
  unfolding Sorted Indexed values
  rewritten p history s v =
      let sorted : Sorted s.log = subst Sorted (sym v.log) (Sorted-with_all history [] tt) in
      let indexed : Indexed s.log = subst Indexed (sym v.log) (Indexed-with_all history [] tt) in
      sym (
        with_all-values [] (retain p s.log) (Sorted-retain p s.log sorted)
          (Indexed-retain p s.log indexed))

  kept-Reads :
      (p : ℕ → Bool) (history : List (Entry P)) (s : Inner V P)
      → InSync format history s
      → All (Reads format) (kept_history p s)
  unfolding values
  kept-Reads p history s v = AllValues-retain p s.log (
      subst (λ m. All (Reads format) (values m)) (sym v.log)
        (AllValues-with_all history [] v.readable tt))

  -- The store whose log keeps the entries that `p` takes, in memory and in its file.
  abbrev pub cut_store : (ℕ → Bool) → Inner V P → Inner V P
  cut_store p s = record s {
    log = retain p s.log;
    log_file = some (log_bytes format (kept_history p s));
  }

  pub cut_store-InSync :
      (p : ℕ → Bool) (history : List (Entry P)) (s : Inner V P)
      → InSync format history s
      → InSync format (kept_history p s) (cut_store p s)
  cut_store-InSync p history s v = record {
    durable = v.durable;
    readable = kept-Reads p history s v;
    file = refl;
    log = rewritten p history s v;
    metadata = v.metadata;
  }

  -- The store with its last purged position moved, in memory and in the file of metadata.
  abbrev pub marked_store : LogId → Inner V P → Inner V P
  marked_store log_id s = record s {
    last_purged = some log_id;
    meta_file = some (
        format.write_meta
          (record { vote = s.vote; last_purged = some log_id; committed = s.committed }));
  }

  abbrev pub MetaReads : Meta V → Type 0
  MetaReads m = format.read_meta (format.write_meta m) ≡ some m

  marked_store-InSync :
      (history : List (Entry P)) (s : Inner V P) (log_id : LogId)
      → InSync format history s
      → MetaReads (meta_of_inner (marked_store log_id s))
      → InSync format history (marked_store log_id s)
  unfolding read_meta_file
  marked_store-InSync history s log_id v law = record {
    durable = v.durable;
    readable = v.readable;
    file = v.file;
    log = v.log;
    metadata = rw law refl;
  }

  reopened_files :
      (t u : Inner V P)
      → t.meta_file ≡ u.meta_file
      → t.log_file ≡ u.log_file
      → open_log format u.meta_file u.log_file ≡ ok u
      → open_log format t.meta_file t.log_file ≡ ok u
  reopened_files t u e f h = rw (e, f) h

  -- After a truncation of a store that is in step with its files, whose write is completed,
  -- lost or of unknown outcome, a restart reads either the old store or the store whose log
  -- ends before the given position.
  pub truncate-crash :
      (history : List (Entry P)) (s : Inner V P) (log_id : LogId) (write : Write)
      → InSync format history s
      → let after = (truncate format write s log_id).0 in
        (open_log format after.meta_file after.log_file ≡ ok s)
        ⊎ (open_log format after.meta_file after.log_file ≡ ok (cut_store (before_id log_id) s))
  unfolding truncate rewrite_log replace
  truncate-crash history s log_id lost v = inl (
      reopened_files (truncate format lost s log_id).0 s (rw v.durable refl) (rw v.durable refl)
        (reopen format history s v))
  truncate-crash history s log_id written v = inr (
      reopened_files (truncate format written s log_id).0 (cut_store (before_id log_id) s)
        (rw v.durable refl) (rw v.durable refl)
        (reopen format _ _ (cut_store-InSync (before_id log_id) history s v)))
  truncate-crash history s log_id unsure v = inr (
      reopened_files (truncate format unsure s log_id).0 (cut_store (before_id log_id) s)
        (rw v.durable refl) (rw v.durable refl)
        (reopen format _ _ (cut_store-InSync (before_id log_id) history s v)))

  -- After a purge of a store that is in step with its files, with each of its two writes
  -- completed, lost or of unknown outcome, a restart reads the old store, or the old log with
  -- the new purge mark, or the purged store; the new metadata is assumed to be read back.
  pub purge-crash :
      (history : List (Entry P)) (s : Inner V P) (log_id : LogId) (meta_write log_write : Write)
      → InSync format history s
      → MetaReads (meta_of_inner (marked_store log_id s))
      → let after = (purge format meta_write log_write s log_id).0 in
        let reopened = open_log format after.meta_file after.log_file in
        (reopened ≡ ok s)
        ⊎ (reopened ≡ ok (marked_store log_id s))
        ⊎ (reopened ≡ ok (cut_store (after_id log_id) (marked_store log_id s)))
  unfolding purge persist_meta rewrite_log replace
  purge-crash history s log_id lost log_write v law = inl (
      reopened_files (purge format lost log_write s log_id).0 s (rw v.durable refl)
        (rw v.durable refl) (reopen format history s v))
  purge-crash history s log_id unsure log_write v law = inr (
      inl (
        reopened_files (purge format unsure log_write s log_id).0 (marked_store log_id s)
          (rw v.durable refl) (rw v.durable refl)
          (reopen format history _ (marked_store-InSync history s log_id v law))))
  purge-crash history s log_id written lost v law = inr (
      inl (
        reopened_files (purge format written lost s log_id).0 (marked_store log_id s)
          (rw v.durable refl) (rw v.durable refl)
          (reopen format history _ (marked_store-InSync history s log_id v law))))
  purge-crash history s log_id written written v law = inr (
      inr (
        reopened_files (purge format written written s log_id).0 _ (rw v.durable refl)
          (rw v.durable refl)
          (reopen format _ _ (
            cut_store-InSync (after_id log_id) history _
              (marked_store-InSync history s log_id v law)))))
  purge-crash history s log_id written unsure v law = inr (
      inr (
        reopened_files (purge format written unsure s log_id).0 _ (rw v.durable refl)
          (rw v.durable refl)
          (reopen format _ _ (
            cut_store-InSync (after_id log_id) history _
              (marked_store-InSync history s log_id v law)))))
