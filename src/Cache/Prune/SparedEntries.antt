-- ===== src/Cache/Prune/SparedEntries.antt =====
-- The pass of `prune` of crates/unixd-cache/src/cache.rs over the entries, and the keys that are held.
use mathlib.Core.List.{append_cancel_right}
use unixd.Prelude.{
  ℕ, ◌≡◌, ◌≢◌, refl, sym, subst, ap, ◌∙◌, true, false, not, List, [], ◌∷◌, ◌++◌, Option, none, some,
  ok, Bytes, ascii, list_eq, nat_eq, ◌==◌, ==_iff, ◌⊎◌, inl, inr, Bool-cases, true≢false,
}
use unixd.Cache.Error.{Error}
use unixd.Cache.Os.{FilePath, Node, World, M, pure, ◌>>=◌, join}
use unixd.Cache.Fs.{External, is_held, is_below}
use unixd.Cache.Effects.{Does, Does-pure, Does-bind, Does-bind_from, Does-if}
use unixd.Cache.Footprint.{Tolerates}
use unixd.Cache.ExternalLaws.{OpenLaws}
use unixd.Cache.Private.{Held, with_held, remove}
use unixd.Cache.Private.Locks.{try_lock_exclusive}
use unixd.Cache.Private.FileFootprint.{Does-try_lock_exclusive}
use unixd.Cache.Private.Footprint.{Does-with_held, Does-remove, Does-regular}
use unixd.Cache.Entry.{
  Inner, Header, entries_dir, entry_path, lock_path, entry_digest, temporary_digest, is_temporary,
  is_digest,
}
use unixd.Cache.Paths.{
  ne→==, lock-ne-entry, in_entries_inj, in_entries_below, entry_digest-some, temporary-ne-entry,
}
use unixd.Cache.Prune.{Progress, try_key}
use unixd.Cache.Prune.Entries.{
  remove_temporary, temporary_locked, prune_temporary, is_expired, prune_metadata, prune_locked,
  prune_entry, prune_item, prune_items,
}
use unixd.Cache.Prune.PassFootprint.{Does-live}
use unixd.Cache.Prune.HeldKeys.{SameHeld-Tolerates, try_lock_free}
use unixd.Cache.Prune.Spares.{below_changes, Spares, all_but, Spares-Tolerates, Spares-free}

module _ (x : External) (laws : OpenLaws x) (header_from_slice : Bytes → Option Header)
    (inner : Inner) (digest : Bytes) where
  abbrev pub key_lock : FilePath
  key_lock = lock_path inner digest

  abbrev pub entry : FilePath
  entry = entry_path inner digest

  abbrev pub R : World → World → Type 0
  R = Spares key_lock entry

  abbrev pub t : Tolerates R (all_but entry)
  t = Spares-Tolerates key_lock entry

  pub lock_changes : (d : Bytes) → all_but entry (lock_path inner d) ≡ true
  unfolding lock_path
  lock_changes d = ap not (ne→== _ _ (lock-ne-entry inner (d ++ ascii ".lock") digest))

  Does-try_key : (d : Bytes) → Does R (try_key x header_from_slice inner d)
  unfolding try_key
  Does-try_key d = Does-try_lock_exclusive t x laws _ (lock_changes d)

  -- What is done with a key's lock spares the entry if it does so for the other keys: the lock of
  -- the entry's own key cannot be taken while another holds it.
  pub with_key :
      {A : Type 0} (d : Bytes) (f : Option Held → M Error A)
      → Does R (f none)
      → ((held : Held) → held.path ≡ lock_path inner d → d ≢ digest → Does R (f (some held)))
      → Does R (try_key x header_from_slice inner d >>= f)
  unfolding try_key
  with_key {A} d f dn db =
      Does-bind_from t.effect (try_lock_exclusive x (lock_path inner d)) f (Does-try_key d) after
    where
      after :
          (w : World) (o : Option Held)
          → (try_lock_exclusive x (lock_path inner d) w).0 ≡ ok o
          → R
              (try_lock_exclusive x (lock_path inner d) w).1
              (f o (try_lock_exclusive x (lock_path inner d) w).1).1
      after w none h = dn.from _
      after w (some held) h =
          let (free, at) = try_lock_free x laws (lock_path inner d) w held h in
          elim (Bool-cases (d == digest)) [
            | inl own ↦
                let same =
                  ((Does-try_lock_exclusive SameHeld-Tolerates x laws (lock_path inner d) refl).from
                    w).held in
                Spares-free key_lock entry _ _ (
                  subst (λ l. is_held key_lock l ≡ false) (sym same)
                    (subst (λ g. is_held (lock_path inner g) w.held ≡ false)
                      ((==_iff d digest).0 own) free))
            | inr apart ↦
                (db held at (λ e. true≢false (sym ((==_iff d digest).1 e) ∙ apart))).from _
          ]

  pub Does-held :
      {A : Type 0} (d : Bytes) (held : Held) (body : M Error A)
      → held.path ≡ lock_path inner d
      → Does R body
      → Does R (with_held held body)
  Does-held d held body at db =
      Does-with_held t held body (ap (all_but entry) at ∙ lock_changes d) db

  module _ (live_digest : is_digest digest ≡ true) where
    entry_of :
        (name d : Bytes)
        → entry_digest name ≡ some d
        → d ≢ digest
        → is_below (join (entries_dir inner) name) entry ≡ false
    entry_of name d named ne = elim (Bool-cases (is_below (join (entries_dir inner) name) entry)) [
      | inl b ↦
          let file_name = in_entries_inj inner name digest (in_entries_below inner name digest b) in
          absurd (
            ne (
              append_cancel_right d digest (ascii ".json")
                (sym (entry_digest-some name d named) ∙ file_name)))
      | inr b ↦ b
    ]

    temporary_below :
        (name : Bytes)
        → is_temporary name ≡ true
        → is_below (join (entries_dir inner) name) entry ≡ false
    temporary_below name temp = elim (Bool-cases (is_below (join (entries_dir inner) name) entry)) [
      | inl b ↦ absurd (
          temporary-ne-entry name digest temp live_digest
            (in_entries_inj inner name digest (in_entries_below inner name digest b)))
      | inr b ↦ b
    ]

    Does-remove_temporary :
        (now : ℕ) (name : Bytes) (p : Progress)
        → is_temporary name ≡ true
        → Does R (remove_temporary x header_from_slice inner now (join (entries_dir inner) name) p)
    unfolding remove_temporary
    Does-remove_temporary now name p temp =
        Does-bind t.effect _ _ (Does-remove t _ (below_changes entry _ (temporary_below name temp)))
          (λ _. Does-pure t.effect _)

    Does-prune_temporary :
        (now : ℕ) (name : Bytes) (p : Progress) (d : Option Bytes)
        → is_temporary name ≡ true
        → Does R (prune_temporary x header_from_slice inner now (join (entries_dir inner) name) p d)
    unfolding prune_temporary temporary_locked
    Does-prune_temporary now name p none temp = Does-remove_temporary now name p temp
    Does-prune_temporary now name p (some d) temp =
        with_key d _ (Does-pure t.effect p)
          (λ held at _. Does-held d held _ at (Does-remove_temporary now name p temp))

    Does-prune_metadata :
        (now : ℕ) (name d : Bytes) (p : Progress) (o : Option Node)
        → is_below (join (entries_dir inner) name) entry ≡ false
        → Does R (prune_metadata x header_from_slice inner now name d p o)
    unfolding prune_metadata is_expired
    Does-prune_metadata now name d p none out = Does-pure t.effect p
    Does-prune_metadata now name d p (some m) out =
        Does-bind t.effect _ _
          (Does-if t.effect _ _ _ (Does-pure t.effect true) (
            Does-bind t.effect _ _ (Does-live x laws header_from_slice inner digest t name now)
              (λ alive. Does-pure t.effect _)))
          (λ expired.
            Does-if t.effect expired _ _ (removal _)
              (Does-if t.effect _ _ _ (removal _) (Does-pure t.effect _)))
      where
        removal : (q : Progress) → Does R (remove (join (entries_dir inner) name) >>= λ _. pure q)
        removal q =
            Does-bind t.effect _ _ (Does-remove t _ (below_changes entry _ out))
              (λ _. Does-pure t.effect q)

    Does-prune_entry :
        (now : ℕ) (name : Bytes) (p : Progress) (d : Option Bytes)
        → entry_digest name ≡ d
        → Does R (prune_entry x header_from_slice inner now name p d)
    unfolding prune_entry prune_locked
    Does-prune_entry now name p none e = Does-pure t.effect p
    Does-prune_entry now name p (some d) e = with_key d _ (Does-pure t.effect p) (λ held at ne.
        let out = entry_of name d e ne in
        Does-held d held _ at (
          Does-bind t.effect _ _ (Does-regular t _ (below_changes entry _ out))
            (λ o. Does-prune_metadata now name d p o out)))

    pub Does-prune_items :
        (now : ℕ) (p : Progress) (names : List Bytes)
        → Does R (prune_items x header_from_slice inner now p names)
    unfolding prune_items
    Does-prune_items now p [] = Does-pure t.effect p
    Does-prune_items now p (name ∷ names) =
        Does-bind t.effect _ _ (item (Bool-cases (is_temporary name)))
          (λ q. Does-prune_items now q names)
      where
        item :
            (is_temporary name ≡ true) ⊎ (is_temporary name ≡ false)
            → Does R (prune_item x header_from_slice inner now p name)
        item (inl temp) =
            rw (temp, prune_item) (Does-prune_temporary now name p (temporary_digest name) temp)
        item (inr other_file) =
            rw (other_file, prune_item) (Does-prune_entry now name p (entry_digest name) refl)
