-- ===== src/MatchTable/Registering.antt =====
-- What the registration of a subscription adds to the recipients.
use mathlib.Core.Path.{subst}
use arbitro.MatchTable.Maps.{bucket-put}
use arbitro.Common.{
  ==_refl, Bool, Bool-cases, Distinct, Distinct-put, List, [], ap, arith, false, if◌then◌else◌, inl,
  inr, length, lookup, none, put, refl, same_number, some, sym, true, ℕ, ◌%◌, ◌&&◌, ◌++◌, ◌==◌,
  ◌||◌, ◌∙◌, ◌∷◌, ◌≡◌, ◌≢◌,
}
use arbitro.Common.Word.{u32_mod}
use arbitro.Subject.{Bytes}
use arbitro.SubjectTrie
use arbitro.SubjectTrie.Links.{never_both}
use arbitro.SubjectTrie.{SubjectTrie, insert_pattern, new}
use arbitro.MatchTable.{
  Buckets, MatchEntry, MatchTable, add_catch_all, add_entry, add_exact, add_pattern, bucket,
  has_entry, new_table, rebuild_loop, same_entry, seconds,
}
use arbitro.MatchTable.Entries.{has_entry-add_entry, has_entry-append, has_entry-same}
use arbitro.MatchTable.Stored.{
  length-seconds, lookup-keep_subject, lookup-keep_subject-none, rebuild_loop-end, seconds-end,
  zero_first,
}
use arbitro.MatchTable.Resolving.{InStep}

module _ (wire_hash_32 : Bytes → ℕ) (K : Bytes → Type 0) where
  -- The sets and the lists agree, a bucket has a subject, which is known and has the bucket's hash.
  pub record Consistent (t : MatchTable) : Type 0 where
    pub catch_all_set : (e : MatchEntry) → has_entry e t.catch_all_dedup ≡ has_entry e t.catch_all
    pub exact_set :
        (h : ℕ) (e : MatchEntry)
        → has_entry e (bucket h t.exact_dedup) ≡ has_entry e (bucket h t.exact)
    pub keys : Distinct t.exact
    pub set_keys : Distinct t.exact_dedup
    pub covered : (h : ℕ) → lookup h t.exact_subjects ≡ none → bucket h t.exact ≡ []
    pub known :
        (h : ℕ) (s : Bytes) → lookup h t.exact_subjects ≡ some s → K s × (wire_hash_32 s ≡ h)
    pub in_step : InStep t

  pub new_table-Consistent : Consistent new_table
  unfolding has_entry bucket lookup rebuild_loop seconds
  new_table-Consistent = record {
    catch_all_set = λ e. refl;
    exact_set = λ h e. refl;
    keys = tt;
    set_keys = tt;
    covered = λ h e. refl;
    known = λ h s e. absurd (never_both e refl);
    in_step = (refl, refl);
  }

  pub add_catch_all-Consistent :
      (t : MatchTable) (entry : MatchEntry) → Consistent t → Consistent (add_catch_all t entry)
  unfolding add_catch_all
  add_catch_all-Consistent t entry c = elim (Bool-cases (has_entry entry t.catch_all_dedup)) [
    | inl there ↦ rw there c
    | inr fresh ↦ rw fresh (record {
      catch_all_set = λ e.
          has_entry-append e t.catch_all_dedup (entry ∷ [])
          ∙ rw (c.catch_all_set e) (sym (has_entry-append e t.catch_all (entry ∷ [])));
      exact_set = c.exact_set;
      keys = c.keys;
      set_keys = c.set_keys;
      covered = c.covered;
      known = c.known;
      in_step = c.in_step;
    })
  ]

  -- A new pattern is inserted where a rebuild inserts it.
  pub add_pattern-Consistent :
      (t : MatchTable) (p : Bytes) (entry : MatchEntry)
      → Consistent t
      → Consistent (add_pattern t p entry)
  unfolding add_pattern
  add_pattern-Consistent t p entry c = record {
    catch_all_set = c.catch_all_set;
    exact_set = c.exact_set;
    keys = c.keys;
    set_keys = c.set_keys;
    covered = c.covered;
    known = c.known;
    in_step = (
      rw (c.in_step.0) (
          ap (λ k. insert_pattern (rebuild_loop 0 t.patterns SubjectTrie.new) p (k % u32_mod))
            (ap length c.in_step.1 ∙ length-seconds t.patterns ∙ zero_first (length t.patterns))
          ∙ sym (rebuild_loop-end 0 t.patterns p entry SubjectTrie.new)),
      rw (c.in_step.1) (sym (seconds-end t.patterns p entry)),
    );
  }

  -- The subject that is stored in the bucket of another one is that one.
  abbrev pub NoClash : Type 0
  NoClash = (a b : Bytes) → K a → K b → wire_hash_32 a ≡ wire_hash_32 b → a ≡ b

  one_more :
      (e x : MatchEntry) (b : Bool) → (b || has_entry e (x ∷ [])) ≡ (b || (true && same_entry x e))
  unfolding has_entry
  one_more e x b = ground arith

  if_put :
      (h : ℕ) (x : MatchEntry) (b : Bool) (v : List MatchEntry) (m : Buckets)
      → Distinct m
      → Distinct (if b then m else put h v m)
  if_put h x true v m d = d
  if_put h x false v m d = Distinct-put h v m d

  bucket_off :
      (t : MatchTable) (h k : ℕ) (f : Bytes) (entry : MatchEntry)
      → h ≢ k
      → bucket k (add_exact t h f entry).exact ≡ bucket k t.exact
  unfolding add_exact
  bucket_off t h k f entry off = elim (Bool-cases (has_entry entry (bucket h t.exact_dedup))) [
    | inl there ↦ rw there refl
    | inr fresh ↦
        rw (fresh, bucket-put h k (bucket h t.exact ++ entry ∷ []) t.exact) (ground (arith, off))
  ]

  pub has_entry-add_exact :
      (t : MatchTable) (h k : ℕ) (f : Bytes) (entry e : MatchEntry)
      → Consistent t
      → has_entry e (bucket k (add_exact t h f entry).exact)
        ≡ (has_entry e (bucket k t.exact) || ((h == k) && same_entry entry e))
  unfolding add_exact
  has_entry-add_exact t h k f entry e c =
      elim (Bool-cases (has_entry entry (bucket h t.exact_dedup))) [
        | inl there ↦ rw there (elim (same_number h k) [
          | inr off ↦ ground (arith, off)
          | inl here ↦ elim (Bool-cases (same_entry entry e)) [
            | inr differs ↦ rw differs (ground arith)
            | inl it ↦
                subst
                  (λ j.
                    has_entry e (bucket j t.exact)
                    ≡ (has_entry e (bucket j t.exact) || ((h == j) && same_entry entry e)))
                  here
                  (rw
                    (
                      it,
                      sym (has_entry-same entry e (bucket h t.exact) it),
                      sym (c.exact_set h entry),
                      there,
                    )
                    (ground arith))
          ]
        ])
        | inr fresh ↦
            rw (fresh, bucket-put h k (bucket h t.exact ++ entry ∷ []) t.exact)
              (elim (same_number h k) [
                | inr off ↦ ground (arith, off)
                | inl here ↦
                    rw (here, ==_refl k)
                      (has_entry-append e (bucket k t.exact) (entry ∷ [])
                        ∙ one_more e entry (has_entry e (bucket k t.exact)))
              ])
      ]

  has_entry-add_exact_set :
      (t : MatchTable) (h k : ℕ) (f : Bytes) (entry e : MatchEntry)
      → has_entry e (bucket k (add_exact t h f entry).exact_dedup)
        ≡ (has_entry e (bucket k t.exact_dedup) || ((h == k) && same_entry entry e))
  unfolding add_exact
  has_entry-add_exact_set t h k f entry e =
      rw (bucket-put h k (add_entry entry (bucket h t.exact_dedup)) t.exact_dedup)
        (elim (same_number h k) [
          | inr off ↦ ground (arith, off)
          | inl here ↦ rw (here, ==_refl k) (has_entry-add_entry e entry (bucket k t.exact_dedup))
        ])

  pub add_exact-Consistent :
      (t : MatchTable) (f : Bytes) (entry : MatchEntry)
      → K f
      → Consistent t
      → Consistent (add_exact t (wire_hash_32 f) f entry)
  add_exact-Consistent t f entry kf c =
      let h = wire_hash_32 f in
      record {
        catch_all_set = unfold add_exact in c.catch_all_set;
        exact_set = λ k e.
            has_entry-add_exact_set t h k f entry e
            ∙ ap (λ b. b || ((h == k) && same_entry entry e)) (c.exact_set k e)
            ∙ sym (has_entry-add_exact t h k f entry e c);
        keys =
            unfold add_exact in
            (if_put h entry (has_entry entry (bucket h t.exact_dedup))
              (bucket h t.exact ++ entry ∷ []) t.exact c.keys);
        set_keys =
            unfold add_exact in
            Distinct-put h (add_entry entry (bucket h t.exact_dedup)) t.exact_dedup c.set_keys;
        covered = λ k e.
            let (off, gone) =
              lookup-keep_subject-none h k f t.exact_subjects (unfold add_exact in e) in
            bucket_off t h k f entry off ∙ c.covered k gone;
        known = λ k s e.
            elim (lookup-keep_subject h k f t.exact_subjects s (unfold add_exact in e)) [
              | inl old ↦ c.known k s old
              | inr (here, it) ↦ (subst K it kf, ap wire_hash_32 (sym it) ∙ here)
            ];
        in_step = unfold add_exact in c.in_step;
      }
