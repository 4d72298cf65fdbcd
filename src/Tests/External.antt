-- ===== src/Tests/External.antt =====
-- A machine for the runs: the calls of rustix and tempfile over the table of nodes.
use mathlib.Core.Option
use unixd.Prelude.{
  ap, lookup, suc, ◌≡◌, refl, subst, ◌∙◌, Bool, true, false, ◌||◌, ◌==◌, [], ◌++◌, Option, none,
  some, Result, ok, err, Bytes, ascii, list_eq, nat_eq, ==_refl, insert, erase, lookup-insert,
}
use unixd.Cache.Error.{ErrorKind, not_found, already_exists}
use unixd.Cache.Os.{FilePath, Node, Handle, World, M, file, join}
use unixd.Cache.Fs.{External, OpenFlags, read_only, read_write_create, at_path}
use unixd.Cache.Footprint.{data_in, node_data, ChangesOnly, untaken, Agree-insert, Agree-erase}
use unixd.Cache.ExternalLaws.{OpenLaws, ReadLaws, TemporaryLaws, only, nowhere}

abbrev opened : FilePath → Option Node → Result ErrorKind Handle
opened p none = err not_found
opened p (some node) = ok (record { path = p; node = node })

abbrev new_file : World → Node
new_file w = record {
  file_type = file;
  uid = w.euid;
  dev = 0;
  ino = w.next_ino;
  mode = 0o600;
  content = [];
  modified = some 0;
}

abbrev opened_or_made : FilePath → Option Node → M ErrorKind Handle
opened_or_made p none w = (
  ok (record { path = p; node = new_file w }),
  record w { nodes = insert p (new_file w) w.nodes; next_ino = suc w.next_ino },
)
opened_or_made p (some node) w = (ok (record { path = p; node = node }), w)

abbrev plain_open : OpenFlags → FilePath → M ErrorKind Handle
plain_open read_only p w = (opened p (at_path p w), w)
plain_open read_write_create p w = opened_or_made p (at_path p w) w

-- A temporary file is made with `O_EXCL`.
abbrev made_new : FilePath → Option Node → M ErrorKind Handle
made_new p none w = opened_or_made p none w
made_new p (some _) w = (err already_exists, w)

abbrev temporary_name : Option (Bytes × Bytes) → Bytes
temporary_name none = ascii ".tmp"
temporary_name (some (prefix, suffix)) = prefix ++ (ascii "AbCdEf" ++ suffix)

abbrev moved_onto : Option Node → FilePath → FilePath → M ErrorKind (Unit {0})
moved_onto none from p w = (err not_found, w)
moved_onto (some node) from p w =
    (ok tt, record w { nodes = insert p node (erase (λ q. q == from) w.nodes) })

abbrev plain_temporary : FilePath → M ErrorKind Handle
plain_temporary p w = made_new p (at_path p w) w

abbrev plain_persist : Handle → FilePath → M ErrorKind (Unit {0})
plain_persist h p w = moved_onto (at_path h.path w) h.path p w

abbrev pub plain_external : External
plain_external = record {
  open_file = plain_open;
  fchmod = λ h mode w. (ok tt, w);
  tempfile_in = λ affixes dir. plain_temporary (join dir (temporary_name affixes));
  persist = plain_persist;
  persist_noclobber = λ h p w. (ok tt, record w { nodes = insert p h.node w.nodes });
  drop_temporary = λ h w. (ok tt, w);
}

opened_path : (p : FilePath) (o : Option Node) (h : Handle) → opened p o ≡ ok h → h.path ≡ p
opened_path p none h e = cc
opened_path p (some node) h e = cc

opened_node : (p : FilePath) (o : Option Node) (h : Handle) → opened p o ≡ ok h → o ≡ some h.node
opened_node p none h e = cc
opened_node p (some node) h e = cc

made_path :
    (p : FilePath) (o : Option Node) (w : World) (h : Handle)
    → (opened_or_made p o w).0 ≡ ok h
    → h.path ≡ p
made_path p none w h e = cc
made_path p (some node) w h e = cc

made_there :
    (p : FilePath) (o : Option Node) (w : World) (h : Handle)
    → at_path p w ≡ o
    → (opened_or_made p o w).0 ≡ ok h
    → data_in p (opened_or_made p o w).1.nodes ≡ some (node_data h.node)
made_there p none w h there e =
    let same : new_file w ≡ h.node = cc in
    ap (Option.map node_data) inserted ∙ ap (λ n. some (node_data n)) same
  where
    inserted : lookup p (insert p (new_file w) w.nodes) ≡ some (new_file w)
    inserted = lookup-insert p p (new_file w) w.nodes ∙ rw (==_refl p) refl
made_there p (some node) w h there e =
    let same : node ≡ h.node = cc in
    ap (Option.map node_data) there ∙ ap (λ n. some (node_data n)) same

unchanged : (changes : FilePath → Bool) (w : World) → ChangesOnly changes w w
unchanged changes w = (w.faults, w.nodes, w.next_ino, refl, λ q out. refl, untaken refl)

made_keeps :
    (p : FilePath) (o : Option Node) (w : World) → ChangesOnly (only p) w (opened_or_made p o w).1
made_keeps p none w = (
  w.faults,
  insert p (new_file w) w.nodes,
  suc w.next_ino,
  refl,
  Agree-insert (only p) p (new_file w) w.nodes (==_refl p),
  untaken refl,
)
made_keeps p (some node) w = unchanged (only p) w

pub plain_laws : OpenLaws plain_external
plain_laws = record {
  open_path = elim [
    | read_only ↦ λ p w h e. opened_path p (at_path p w) h e
    | read_write_create ↦ λ p w h e. made_path p (at_path p w) w h e
  ];
  open_reads = λ p w h e. opened_node p (at_path p w) h e;
  open_writes = λ p w h e. made_there p (at_path p w) w h refl e;
  open_read_keeps = λ p w. unchanged nowhere w;
  open_write_keeps = λ p w. made_keeps p (at_path p w) w;
  fchmod_keeps = λ h mode w. unchanged nowhere w;
}

pub plain_read_laws : ReadLaws plain_external
plain_read_laws = record { opens = λ p w node there regular quiet. rw there refl }

new_handle :
    (p : FilePath) (o : Option Node) (w : World) (h : Handle)
    → o ≡ at_path p w
    → (made_new p o w).0 ≡ ok h
    → (h.path ≡ p)
      × (at_path h.path (made_new p o w).1 ≡ some h.node)
      × (h.node.file_type ≡ file)
      × ChangesOnly (only h.path) w (made_new p o w).1
new_handle p none w h there e =
    let same : record { path = p; node = new_file w } ≡ h = cc in
    subst
      (λ (g : Handle).
        (g.path ≡ p)
        × (at_path g.path (made_new p none w).1 ≡ some g.node)
        × (g.node.file_type ≡ file)
        × ChangesOnly (only g.path) w (made_new p none w).1)
      same
      (
        refl,
        lookup-insert p p (new_file w) w.nodes ∙ rw (==_refl p) refl,
        refl,
        made_keeps p none w,
      )
new_handle p (some node) w h there e = absurd (cc)

not_new :
    (p : FilePath) (o : Option Node) (w : World) (k : ErrorKind)
    → (made_new p o w).0 ≡ err k
    → ChangesOnly nowhere w (made_new p o w).1
not_new p none w k e = absurd (cc)
not_new p (some node) w k e = unchanged nowhere w

renamed :
    (h : Handle) (p : FilePath) (o : Option Node) (w : World)
    → (moved_onto o h.path p w).0 ≡ ok tt
    → (at_path p (moved_onto o h.path p w).1 ≡ o)
      × ChangesOnly (λ q. q == p || q == h.path) w (moved_onto o h.path p w).1
renamed h p none w e = absurd (cc)
renamed h p (some node) w e =
    let changes : FilePath → Bool = λ q. q == p || q == h.path in
    let gone : FilePath → Bool = λ q. q == h.path in
    (
      lookup-insert p p node _ ∙ rw (==_refl p) refl,
      (
        w.faults,
        insert p node (erase gone w.nodes),
        w.next_ino,
        refl,
        λ q out.
            Agree-insert changes p node (erase gone w.nodes) (rw (==_refl p) refl) q out
            ∙ Agree-erase changes gone w.nodes (λ r own. rw own (or_true (r == p))) q out,
        untaken refl,
      ),
    )
  where
    or_true : (b : Bool) → (b || true) ≡ true
    or_true true = refl
    or_true false = refl

not_renamed :
    (from p : FilePath) (o : Option Node) (w : World) (k : ErrorKind)
    → (moved_onto o from p w).0 ≡ err k
    → ChangesOnly nowhere w (moved_onto o from p w).1
not_renamed from p none w k e = unchanged nowhere w
not_renamed from p (some node) w k e = absurd (cc)

pub plain_temporary_laws : TemporaryLaws plain_external
plain_temporary_laws = record {
  temporary_path = λ prefix suffix dir w h e. (
    ascii "AbCdEf",
    (new_handle (join dir (temporary_name (some (prefix, suffix)))) (at_path _ w) w h refl e).0,
  );
  temporary_new = λ prefix suffix dir w h e.
      let (_, there, regular, changes) =
        new_handle (join dir (temporary_name (some (prefix, suffix)))) (at_path _ w) w h refl e in
      (there, regular, changes);
  temporary_failed = λ prefix suffix dir w k e.
      not_new (join dir (temporary_name (some (prefix, suffix)))) (at_path _ w) w k e;
  persisted = λ h p w e. renamed h p (at_path h.path w) w e;
  persist_failed = λ h p w k e. not_renamed h.path p (at_path h.path w) w k e;
  drop_keeps = λ h w. unchanged (only h.path) w;
}
