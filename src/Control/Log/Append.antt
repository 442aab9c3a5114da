-- ===== src/Control/Log/Append.antt =====
-- append of crates/kalpak-control/src/log_store.rs: what is left in the files, wherever a write ends.
use Prim.Native.String.{String}
use mathlib.Core.List.{append_assoc, append-nil}
use kalpakdb.Prelude.{
  ℕ, ◌-◌, ◌≡◌, ◌<◌, refl, sym, ap, ◌∙◌, subst, Bool, true, false, Option, none, some, List, [], ◌∷◌,
  ◌++◌, ltb, length, take, All, Result, ok, err, arith, Bool-cases, inl, ltb→lt, inr,
}
use kalpakdb.Prelude.Lines.{take-line, no_newline-take}
use kalpakdb.Control.Machine.{Entry}
use kalpakdb.Control.Log.{
  Inner, Format, file_bytes, meta_of_inner, with_entry, entry_line, log_bytes, append_durable,
  append, open_log,
}
use kalpakdb.Control.Log.Replay.{with_all, with_all-append, Reads, log_bytes-append}
use kalpakdb.Control.Log.Sync.{InSync, open_log-tail, in_step, reopen}

module _ {V P : Type 0} (format : Format V P) where
  -- What an append leaves behind, for a restart: the entries that it kept, those that it lost.
  pub record Recovered (history es : List (Entry P)) (before after : Inner V P)
      (result : Result String (Unit {0})) : Type 0 where
    pub kept : List (Entry P)
    pub lost_entries : List (Entry P)
    pub split : es ≡ kept ++ lost_entries
    pub opened :
        open_log format after.meta_file after.log_file
        ≡ ok (record before {
          log = with_all before.log kept;
          log_file = some (log_bytes format (history ++ kept));
        })
    pub complete : result ≡ ok tt → lost_entries ≡ []

  All-snoc :
      (es : List (Entry P)) (e : Entry P)
      → All (Reads format) es
      → Reads format e
      → All (Reads format) (es ++ e ∷ [])
  All-snoc [] e reads r = (r, tt)
  All-snoc (x ∷ es) e (q, reads) r = (q, All-snoc es e reads r)

  abbrev with_line : Inner V P → Entry P → Inner V P
  with_line s e = record s {
    log = with_entry s.log e;
    log_file = some (file_bytes s.log_file ++ entry_line format e);
  }

  with_line-InSync :
      (history : List (Entry P)) (s : Inner V P) (e : Entry P)
      → InSync format history s
      → Reads format e
      → InSync format (history ++ e ∷ []) (with_line s e)
  unfolding with_all log_bytes
  with_line-InSync history s e v r = record {
    durable = v.durable;
    readable = All-snoc history e v.readable r;
    file =
        ap (λ f. some (file_bytes f ++ entry_line format e)) v.file
        ∙ ap (λ l. some (log_bytes format history ++ l)) (sym (append-nil (entry_line format e)))
        ∙ ap some (sym (log_bytes-append format history (e ∷ [])));
    log = ap (λ l. with_entry l e) v.log ∙ sym (with_all-append [] history (e ∷ []));
    metadata = v.metadata;
  }

  kept_more :
      (history es : List (Entry P)) (s after : Inner V P) (e : Entry P)
      (result : Result String (Unit {0}))
      → Recovered (history ++ e ∷ []) es (with_line s e) after result
      → Recovered history (e ∷ es) s after result
  unfolding with_all
  kept_more history es s after e result w = record {
    kept = e ∷ w.kept;
    lost_entries = w.lost_entries;
    split = ap (λ l. e ∷ l) w.split;
    opened =
        w.opened
        ∙ ap
            (λ (h : List (Entry P)). ok (record s {
              log = with_all (with_entry s.log e) w.kept;
              log_file = some (log_bytes format h);
            }))
            (append_assoc history (e ∷ []) w.kept);
    complete = w.complete;
  }

  unchanged :
      (history : List (Entry P)) (s : Inner V P)
      → InSync format history s
      → s ≡ record s { log_file = some (log_bytes format (history ++ [])) }
  unchanged history s v = ground (arith, v.file, append-nil history)

  cut_short :
      (history es : List (Entry P)) (s : Inner V P) (e : Entry P) (n : ℕ) (message : String)
      → InSync format history s
      → Reads format e
      → n < length (entry_line format e)
      → Recovered history
          (e ∷ es)
          s
          (record s { log_file = some (file_bytes s.log_file ++ take n (entry_line format e)) })
          (err message)
  unfolding with_all
  cut_short history es s e n message v r lt = record {
    kept = [];
    lost_entries = e ∷ es;
    split = refl;
    opened =
        ap (open_log format s.meta_file) (
          ap (λ f. some (file_bytes f ++ take n (entry_line format e))) v.file
          ∙ ap (λ t. some (log_bytes format history ++ t)) (take-line n (format.write_entry e) lt))
        ∙ open_log-tail format history (take n (format.write_entry e)) s.meta_file (meta_of_inner s)
            v.readable (no_newline-take n (format.write_entry e) r.text) v.metadata
        ∙ ap ok (in_step format history s v ∙ unchanged history s v);
    complete = λ q. absurd (ground arith);
  }

  -- An append after the first line.
  abbrev after_line :
      List (Entry P)
      → Bool
      → Entry P
      → Inner V P × Result String (Option ℕ)
      → Inner V P × Result String (Unit {0})
  after_line es synced e out = elim out.1 [
    | err message ↦ (out.0, err message)
    | ok left ↦ append format left synced (record out.0 { log = with_entry out.0.log e }) es
  ]

  append_whole :
      (es : List (Entry P)) (synced : Bool) (s : Inner V P) (e : Entry P)
      → s.dir ≡ true
      → append format none synced s (e ∷ es) ≡ append format none synced (with_line s e) es
  unfolding append append_durable
  append_whole es synced s e durable = rw durable refl

  durable_cut :
      (n : ℕ) (s : Inner V P) (e : Entry P)
      → s.dir ≡ true
      → ltb n (length (entry_line format e)) ≡ true
      → append_durable format (some n) s e ≡ (
        record s { log_file = some (file_bytes s.log_file ++ take n (entry_line format e)) },
        err "write failed",
      )
  unfolding append_durable
  durable_cut n s e durable cut = ground arith

  append_cut :
      (es : List (Entry P)) (n : ℕ) (synced : Bool) (s : Inner V P) (e : Entry P)
      → s.dir ≡ true
      → ltb n (length (entry_line format e)) ≡ true
      → append format (some n) synced s (e ∷ es) ≡ (
        record s { log_file = some (file_bytes s.log_file ++ take n (entry_line format e)) },
        err "write failed",
      )
  unfolding append
  append_cut es n synced s e durable cut =
      ap (after_line es synced e) (durable_cut n s e durable cut)

  durable_fits :
      (n : ℕ) (s : Inner V P) (e : Entry P)
      → s.dir ≡ true
      → ltb n (length (entry_line format e)) ≡ false
      → append_durable format (some n) s e ≡ (
        record s { log_file = some (file_bytes s.log_file ++ entry_line format e) },
        ok (some (n - length (entry_line format e))),
      )
  unfolding append_durable
  durable_fits n s e durable fits = ground arith

  append_fits :
      (es : List (Entry P)) (n : ℕ) (synced : Bool) (s : Inner V P) (e : Entry P)
      → s.dir ≡ true
      → ltb n (length (entry_line format e)) ≡ false
      → append format (some n) synced s (e ∷ es)
        ≡ append format (some (n - length (entry_line format e))) synced (with_line s e) es
  unfolding append
  append_fits es n synced s e durable fits =
      ap (after_line es synced e) (durable_fits n s e durable fits)

  -- Appending entries to a store that is in step with its files, wherever the disk stops
  -- taking bytes and whether or not the sync works: a restart then reads the old log and a
  -- prefix of the new entries, with the rest of the store unchanged and the torn line cut off
  -- the file; if the append succeeded, the prefix is all of them. The text of each entry is
  -- assumed to be one line that is read back.
  pub append-Recovered :
      (history es : List (Entry P)) (room : Option ℕ) (synced : Bool) (s : Inner V P)
      → InSync format history s
      → All (Reads format) es
      → Recovered history es s (append format room synced s es).0 (append format room synced s es).1
  unfolding append with_all
  append-Recovered history [] room synced s v reads = record {
    kept = [];
    lost_entries = [];
    split = refl;
    opened = reopen format history s v ∙ ap ok (unchanged history s v);
    complete = λ q. refl;
  }
  append-Recovered history (e ∷ es) none synced s v (r, reads) =
      subst (λ out. Recovered history (e ∷ es) s out.0 out.1)
        (sym (append_whole es synced s e v.durable))
        (kept_more history es s _ e _ (
          append-Recovered (history ++ e ∷ []) es none synced (with_line s e)
            (with_line-InSync history s e v r) reads))
  append-Recovered history (e ∷ es) (some n) synced s v (r, reads) =
      elim (Bool-cases (ltb n (length (entry_line format e)))) [
        | inl cut ↦
            subst (λ out. Recovered history (e ∷ es) s out.0 out.1)
              (sym (append_cut es n synced s e v.durable cut))
              (cut_short history es s e n "write failed" v r (ltb→lt _ _ cut))
        | inr fits ↦
            subst (λ out. Recovered history (e ∷ es) s out.0 out.1)
              (sym (append_fits es n synced s e v.durable fits))
              (kept_more history es s _ e _ (
                append-Recovered (history ++ e ∷ []) es (some (n - length (entry_line format e)))
                  synced (with_line s e) (with_line-InSync history s e v r) reads))
      ]
