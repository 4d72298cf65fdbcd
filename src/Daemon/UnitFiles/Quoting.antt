-- ===== src/Daemon/UnitFiles/Quoting.antt =====
-- The quoting of `ExecStart` (crates/unixd/src/install.rs) and the words it stands for.
use unixd.Prelude.{ℕ, ◌≡◌, ◌≢◌, refl, sym, ◌∙◌, Bytes, List, [], ◌∷◌, ◌++◌, nat_eq, arith}
use mathlib.Core.List.{append_assoc}
use unixd.Daemon.UnitFiles.{escaped, escape, quote, quote_args, exec_start}

escaped_inj : (c d : ℕ) (xs ys : Bytes) → escaped c ++ xs ≡ escaped d ++ ys → (c ≡ d) × (xs ≡ ys)
unfolding escaped
escaped_inj c d xs ys e = ground arith

escaped-ne-quote : (d : ℕ) (xs r : Bytes) → escaped d ++ xs ≢ 34 ∷ r
unfolding escaped
escaped-ne-quote d xs r e = ground arith

-- Where a quoted word ends is told by the text alone.
escape_inj : (u v r s : Bytes) → escape u ++ 34 ∷ r ≡ escape v ++ 34 ∷ s → (u ≡ v) × (r ≡ s)
unfolding escape
escape_inj [] [] r s e = (refl, cc)
escape_inj [] (d ∷ v) r s e = absurd (
    escaped-ne-quote d (escape v ++ 34 ∷ s) r
      (sym (append_assoc (escaped d) (escape v) (34 ∷ s)) ∙ sym e))
escape_inj (c ∷ u) [] r s e = absurd (
    escaped-ne-quote c (escape u ++ 34 ∷ r) s
      (sym (append_assoc (escaped c) (escape u) (34 ∷ r)) ∙ e))
escape_inj (c ∷ u) (d ∷ v) r s e =
    let (first, rest) = escaped_inj c d (escape u ++ 34 ∷ r) (escape v ++ 34 ∷ s) (
      sym (append_assoc (escaped c) (escape u) (34 ∷ r))
      ∙ e
      ∙ append_assoc (escaped d) (escape v) (34 ∷ s)) in
    let (word, after) = escape_inj u v r s rest in (cc (first, word), after)

quote_inj : (u v r s : Bytes) → quote u ++ r ≡ quote v ++ s → (u ≡ v) × (r ≡ s)
unfolding quote
quote_inj u v r s e =
    let inside : escape u ++ 34 ∷ r ≡ escape v ++ 34 ∷ s =
      sym (append_assoc (escape u) (34 ∷ []) r) ∙ tail e ∙ append_assoc (escape v) (34 ∷ []) s in
    escape_inj u v r s inside
  where
    tail : {a b : Bytes} → ◌≡◌ {A = Bytes} (34 ∷ a) (34 ∷ b) → a ≡ b
    tail e = cc

quote_args_inj : (xs ys : List Bytes) → quote_args xs ≡ quote_args ys → xs ≡ ys
unfolding quote_args
quote_args_inj [] [] e = refl
quote_args_inj [] (b ∷ ys) e = cc
quote_args_inj (a ∷ xs) [] e = cc
quote_args_inj (a ∷ xs) (b ∷ ys) e =
    let (word, rest) = quote_inj a b (quote_args xs) (quote_args ys) (cc) in
    let more = quote_args_inj xs ys rest in cc (word, more)

-- Two commands of UTF-8 words have the same `ExecStart` line only if they are the same program with the same
-- arguments, whatever spaces, quotes, backslashes, percent and dollar signs their words hold.
pub exec_start_inj :
    (program other_program : Bytes) (args other_args : List Bytes)
    → exec_start program args ≡ exec_start other_program other_args
    → (program ≡ other_program) × (args ≡ other_args)
unfolding exec_start
exec_start_inj program other_program args other_args e =
    let (word, rest) =
      quote_inj program other_program (quote_args args) (quote_args other_args) e in
    (word, quote_args_inj args other_args rest)
