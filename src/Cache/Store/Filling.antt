-- ===== src/Cache/Store/Filling.antt =====
-- What the temporary file of `write_atomic` of crates/unixd-cache/src/cache.rs holds when it is ready.
use mathlib.Core.Option
use unixd.Prelude.{
  ℕ, ◌≡◌, refl, sym, ap, subst, ◌∙◌, Bool, false, List, [], ◌∷◌, Option, none, some, Result, ok,
  err, Bytes, list_eq, nat_eq, ==_refl, lookup-modify, modify,
}
use unixd.Cache.Error.{Error, ErrorKind}
use unixd.Cache.Os.{FilePath, file, Node, Handle, World, M, attempt, ◌>>=◌, now_ms, ignore}
use unixd.Cache.Fs.{External, at_path, write_all, set_modified, sync_all, syscall, take_fault}
use unixd.Cache.Effects.{Does, Does-attempt, Bind, goes_on, stops, Bind-cases, bind_ok}
use unixd.Cache.Footprint.{
  Tolerates, ChangesOnly, from_ChangesOnly, data_in, node_data, Does-now_ms, Does-set_modified,
  Does-sync_all,
}
use unixd.Cache.ExternalLaws.{TemporaryLaws, only, nowhere}
use unixd.Cache.Private.Files.{or_drop}
use unixd.Cache.Read.Untouched.{Frame, Frame-Tolerates}
use unixd.Cache.Entry.{Inner, at}
use unixd.Cache.Store.{fill_temporary}
use unixd.Cache.Store.FillEffects.{call_or_drop, or_drop-Does, fill_temporary-Does}

-- The path has a regular file with these bytes.
pub record Has (p : FilePath) (bytes : Bytes) (w : World) : Type 0 where
  pub node : Node
  pub there : data_in p w.nodes ≡ some node
  pub regular : node.file_type ≡ file
  pub whole : node.content ≡ bytes

pub Has-Frame :
    (p : FilePath) (bytes : Bytes) (changes : FilePath → Bool) (w v : World)
    → changes p ≡ false
    → Frame changes w v
    → Has p bytes w
    → Has p bytes v
Has-Frame p bytes changes w v out f h = record {
  node = h.node;
  there = f.at p out ∙ h.there;
  regular = h.regular;
  whole = h.whole;
}

pub Frame-ChangesOnly :
    (changes : FilePath → Bool) (w v : World) → ChangesOnly changes w v → Frame changes w v
Frame-ChangesOnly changes w v c = from_ChangesOnly (Frame-Tolerates changes) w v c

pub frame_clock :
    (changes : FilePath → Bool) (w : World) (c : ℕ → ℕ) → Frame changes w (record w { clock = c })
frame_clock changes w c = record { at = λ q out. refl }

clock_free : (changes : FilePath → Bool) → Does {E = Error} (Frame changes) now_ms
clock_free changes = Does-now_ms (frame_clock changes)

pub never : {E A : Type 0} (k : E) (a : A) → ◌≡◌ {A = Result E A} (err k) (ok a) → ⊥
never k a e = cc

-- An action that keeps a fact about the world when it succeeds.
record Keeps {E A : Type 0} (P : World → Type 0) (m : M E A) : Type 0 where
  after : (w : World) (a : A) → P w → (m w).0 ≡ ok a → P (m w).1

module _ {P : World → Type 0} where
  Keeps-bind :
      {E A B : Type 0} (m : M E A) (f : A → M E B)
      → Keeps P m
      → ((a : A) → Keeps P (f a))
      → Keeps P (m >>= f)
  Keeps-bind {E} {A} {B} m f km kf = record { after = λ w b p e. go w b p e (Bind-cases m f w) }
    where
      go : (w : World) (b : B) → P w → ((m >>= f) w).0 ≡ ok b → Bind m f w → P ((m >>= f) w).1
      go w b p e (goes_on a first whole) =
          subst (λ (r : Result E B × World). P r.1) (sym whole)
            ((kf a).after (m w).1 b (km.after w a p first)
              (ap (λ (r : Result E B × World). r.0) (sym whole) ∙ e))
      go w b p e (stops k first whole) =
          absurd (never k b (ap (λ (r : Result E B × World). r.0) (sym whole) ∙ e))

module _ (p : FilePath) (bytes : Bytes) where
  Keeps-Has : {E A : Type 0} (m : M E A) → Does (Frame nowhere) m → Keeps (Has p bytes) m
  Keeps-Has m d = record { after = λ w a h e. Has-Frame p bytes nowhere w _ refl (d.from w) h }

abbrev write_now : Handle → Bytes → M ErrorKind (Unit {0})
write_now h bytes w =
    (ok tt, record w { nodes = modify h.path (λ node. record node { content = bytes }) w.nodes })

pub attempt_bind :
    {E F A B : Type 0} (m : M E A) (f : Result E A → M F B) (w : World)
    → (attempt m >>= f) w ≡ f (m w).0 (m w).1
unfolding attempt ◌>>=◌
attempt_bind m f w = refl

-- What a write to the temporary file leaves there.
write_all-Has :
    (h : Handle) (bytes : Bytes) (w : World) (node : Node)
    → at_path h.path w ≡ some node
    → node.file_type ≡ file
    → (write_all h bytes w).0 ≡ ok tt
    → Has h.path bytes (write_all h bytes w).1
unfolding write_all syscall
write_all-Has h bytes w node there regular e = go w.faults e
  where
    now_there :
        (w : World)
        → at_path h.path w ≡ some node
        → at_path h.path (write_now h bytes w).1 ≡ some (record node { content = bytes })
    now_there w there = lookup-modify h.path h.path _ w.nodes ∙ rw (==_refl h.path, there) refl

    written : (w : World) → at_path h.path w ≡ some node → Has h.path bytes (write_now h bytes w).1
    written w there = record {
      node = node_data (record node { content = bytes });
      there = ap (Option.map node_data) (now_there w there);
      regular = regular;
      whole = refl;
    }

    go :
        (faults : List (Option ErrorKind))
        → (take_fault faults (write_now h bytes) w).0 ≡ ok tt
        → Has h.path bytes (take_fault faults (write_now h bytes) w).1
    go [] e = written w there
    go (none ∷ rest) e = written (record w { faults = rest }) there
    go (some k ∷ rest) e = absurd (never k tt e)

module _ (x : External) (laws : TemporaryLaws x) (inner : Inner) (h : Handle) where
  abbrev own : FilePath → Bool
  own = only h.path

  tolerates : Tolerates (Frame own) own
  tolerates = Frame-Tolerates own

  pub Does-or_drop : {A : Type 0} (r : Result ErrorKind A) → Does (Frame own) (or_drop x h r)
  Does-or_drop r = or_drop-Does tolerates (frame_clock own) x laws inner h (λ q e. e) r

  pub Does-fill_temporary : (bytes : Bytes) → Does (Frame own) (fill_temporary x inner h bytes)
  Does-fill_temporary bytes =
      fill_temporary-Does tolerates (frame_clock own) x laws inner h (λ q e. e) bytes

  Keeps-or_drop :
      (bytes : Bytes) (r : Result ErrorKind (Unit {0})) → Keeps (Has h.path bytes) (or_drop x h r)
  unfolding or_drop
  Keeps-or_drop bytes (ok a) = record { after = λ w b has e. has }
  Keeps-or_drop bytes (err k) = record { after = λ w b has e. absurd (failed w b e) }
    where
      failed : (w : World) (b : Unit {0}) → (or_drop x {A = Unit {0}} h (err k) w).0 ≡ ok b → ⊥
      failed w b e =
          let (_, _, rest) = bind_ok (ignore {F = Error} (x.drop_temporary h)) _ w e in
          never _ b rest

  quiet : Tolerates (Frame nowhere) nowhere
  quiet = Frame-Tolerates nowhere

  -- The rest of `fill_temporary`, once the bytes are written.
  Keeps-dated :
      (bytes : Bytes)
      → Keeps (Has h.path bytes) (
          now_ms {E = Error} >>= (λ now.
            call_or_drop x h (set_modified h (at now)) (attempt sync_all >>= (λ r. or_drop x h r))))
  Keeps-dated bytes = Keeps-bind _ _ (Keeps-Has h.path bytes now_ms (clock_free nowhere)) (λ now.
      Keeps-bind _ _
        (Keeps-Has h.path bytes (attempt (set_modified h (at now)))
          (Does-attempt _ (Does-set_modified quiet h (at now))))
        (λ r. Keeps-bind _ _ (Keeps-or_drop bytes r) (λ _.
          Keeps-bind _ _
            (Keeps-Has h.path bytes (attempt sync_all) (Does-attempt _ (Does-sync_all quiet)))
            (Keeps-or_drop bytes))))

  pub after_call_ok :
      (r : Result ErrorKind (Unit {0})) (rest : M Error (Unit {0})) (w : World)
      → ((or_drop x h r >>= (λ _. rest)) w).0 ≡ ok tt
      → (r ≡ ok tt) × ((or_drop x h r >>= (λ _. rest)) w ≡ rest w)
  unfolding or_drop ◌>>=◌ ignore
  after_call_ok (ok a) rest w e = (refl, refl)
  after_call_ok (err k) rest w e = absurd (never _ tt e)

  -- A call that did not end the block succeeded, and the rest follows it.
  pub call_ok :
      (m : M ErrorKind (Unit {0})) (rest : M Error (Unit {0})) (w : World)
      → (call_or_drop x h m rest w).0 ≡ ok tt
      → ((m w).0 ≡ ok tt) × (call_or_drop x h m rest w ≡ rest (m w).1)
  call_ok m rest w e =
      let split = attempt_bind m (λ r. or_drop x h r >>= (λ _. rest)) w in
      let (done, rests) =
        after_call_ok (m w).0 rest (m w).1
          (ap (λ (r : Result Error (Unit {0}) × World). r.0) (sym split) ∙ e) in
      (done, split ∙ rests)

  pub fill_temporary-Has :
      (bytes : Bytes) (w : World) (node : Node)
      → at_path h.path w ≡ some node
      → node.file_type ≡ file
      → (fill_temporary x inner h bytes w).0 ≡ ok tt
      → Has h.path bytes (fill_temporary x inner h bytes w).1
  unfolding fill_temporary
  fill_temporary-Has bytes w node there regular e =
      let (written, rests) = call_ok (write_all h bytes) _ w e in
      let has = write_all-Has h bytes w node there regular written in
      subst (λ (r : Result Error (Unit {0}) × World). Has h.path bytes r.1) (sym rests)
        ((Keeps-dated bytes).after (write_all h bytes w).1 tt has
          (ap (λ (r : Result Error (Unit {0}) × World). r.0) (sym rests) ∙ e))
