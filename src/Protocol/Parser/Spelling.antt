-- ===== src/Protocol/Parser/Spelling.antt =====
-- crates/ussl-protocol/src/parser.rs: the commands that whole lines give.
use ussl.Prelude.{
  length, arith, ℕ, ◌≡◌, ◌∙◌, refl, ap, false, List, [], ◌∷◌, ◌++◌, Option, none, some, ◌==◌, All,
  map,
}
use ussl.Text.{Text, codes, text_eq}
use ussl.Text.Space.{trim}
use ussl.Text.Case.{to_uppercase}
use ussl.Core.Strategy.{
  Strategy, lww, crdt_counter, crdt_set, crdt_map, crdt_text, default, name_of, parse_strategy,
  parse_strategy-name_of,
}
use ussl.Core.Error as Core
use ussl.Core.Path.{parse_usize}
use ussl.Protocol.Json.{SerdeJson, parse_value}
use ussl.Protocol.Command.New as New
use ussl.Protocol.Command.{ok, ◌>>=◌}
use ussl.Protocol.Tokenizer.{next_token, skip_spaces, rest}
use ussl.Protocol.Tokenizer.Tokens.{tokens_of, tokens_of-next_token}
use ussl.Protocol.Tokenizer.Spelling.{
  Argument, plain, IsArgument, meaning, spell, spell_argument, Stops, spell-Stops,
  next_token-argument, next_token-nil,
}
use ussl.Protocol.Options.{parse_set, parse_create, create_options}
use ussl.Protocol.Parser.{dispatch, parse_line}

-- The loops over the tokens see the arguments that are spelled.
tokens_of-spell : (xs : List Argument) → All IsArgument xs → tokens_of (spell xs) ≡ map meaning xs
tokens_of-spell [] h = (tokens_of-next_token 0 [] (omega arith)).1 ∙ rw next_token-nil refl
tokens_of-spell (a ∷ xs) h =
    (tokens_of-next_token (length (spell (a ∷ xs))) (spell (a ∷ xs)) (omega arith)).1
    ∙ ap
        (λ (r : Option Text × Text). elim r.0 as (λ x. List Text) [
          | none ↦ []
          | some t ↦ t ∷ tokens_of r.1
        ])
        (next_token-argument a (spell xs) h.0 (spell-Stops xs))
    ∙ ap (λ ts. meaning a ∷ ts) (tokens_of-spell xs h.1)

name_of-IsArgument : (s : Strategy) → IsArgument (plain (name_of s))
unfolding name_of
name_of-IsArgument lww = (refl, refl)
name_of-IsArgument crdt_counter = (refl, refl)
name_of-IsArgument crdt_set = (refl, refl)
name_of-IsArgument crdt_map = (refl, refl)
name_of-IsArgument crdt_text = (refl, refl)

-- an argument at the front of a line
next_token_first :
    (c : ℕ) (t s : Text)
    → IsArgument (plain (c ∷ t))
    → Stops s
    → next_token ((c ∷ t) ++ s) ≡ (some (c ∷ t), s)
unfolding next_token skip_spaces
next_token_first c t s h e = next_token-argument (plain (c ∷ t)) s h e

rest_filled : (c : ℕ) (s : Text) → (c == b' ') ≡ false → rest (b' ' ∷ c ∷ s) ≡ (some (c ∷ s), [])
unfolding rest skip_spaces
rest_filled c s h = rw h refl

module _ {F : Type 0} (S : SerdeJson F) where
  parse_line_first :
      (c : ℕ) (t s : Text)
      → IsArgument (plain (c ∷ t))
      → Stops s
      → trim ((c ∷ t) ++ s) ≡ (c ∷ t) ++ s
      → parse_line S ((c ∷ t) ++ s) ≡ dispatch S (to_uppercase (c ∷ t)) s
  unfolding parse_line
  parse_line_first c t s h e trimmed = rw (trimmed, next_token_first c t s h e) refl

  parse_set-spell :
      (id path : Argument) (c : ℕ) (v : Text)
      → IsArgument id
      → IsArgument path
      → (c == b' ') ≡ false
      → parse_set S (b' ' ∷ (spell_argument id ++ b' ' ∷ (spell_argument path ++ b' ' ∷ c ∷ v)))
        ≡ (parse_value S (c ∷ v) >>= λ value. ok (New.set (meaning id) (meaning path) value))
  unfolding parse_set
  parse_set-spell id path c v i p n =
      rw
        (
          next_token-argument id (b' ' ∷ (spell_argument path ++ b' ' ∷ c ∷ v)) i refl,
          next_token-argument path (b' ' ∷ c ∷ v) p refl,
          rest_filled c v n,
        )
        refl

  dispatch-set : (s : Text) → dispatch S (codes "SET") s ≡ parse_set S s
  unfolding dispatch text_eq
  dispatch-set s = refl

  -- A line of SET, its name in letters of any case, gives the command that sets the value that the
  -- text behind the document and the path stands for, whatever spaces that text has inside.
  pub parse_line-set :
      (n : ℕ) (name : Text) (id path : Argument) (c : ℕ) (v : Text)
      → let args = b' ' ∷ (spell_argument id ++ b' ' ∷ (spell_argument path ++ b' ' ∷ c ∷ v)) in
        to_uppercase (n ∷ name) ≡ codes "SET"
        → IsArgument (plain (n ∷ name))
        → IsArgument id
        → IsArgument path
        → (c == b' ') ≡ false
        → trim ((n ∷ name) ++ args) ≡ (n ∷ name) ++ args
        → parse_line S ((n ∷ name) ++ args)
          ≡ (parse_value S (c ∷ v) >>= λ value. ok (New.set (meaning id) (meaning path) value))
  parse_line-set n name id path c v upper a i p f t =
      let args = b' ' ∷ (spell_argument id ++ b' ' ∷ (spell_argument path ++ b' ' ∷ c ∷ v)) in
      parse_line_first n name args a refl t
      ∙ ap (λ u. dispatch S u args) upper
      ∙ dispatch-set args
      ∙ parse_set-spell id path c v i p f

  options_both :
      (ws wt v m : Text) (s : Strategy) (n : ℕ)
      → to_uppercase ws ≡ codes "STRATEGY"
      → to_uppercase wt ≡ codes "TTL"
      → parse_strategy v ≡ Core.ok s
      → parse_usize m ≡ some n
      → (create_options (ws ∷ v ∷ wt ∷ m ∷ []) default none ≡ ok (s, some n))
        × (create_options (wt ∷ m ∷ ws ∷ v ∷ []) default none ≡ ok (s, some n))
  unfolding create_options text_eq
  options_both ws wt v m s n us ut ev em =
      (rw (us, ut, ev, em, create_options) refl, rw (ut, us, ev, em, create_options) refl)

  parse_create_options :
      (id : Argument) (opts : List Argument) (r : Strategy × Option ℕ)
      → IsArgument id
      → All IsArgument opts
      → create_options (map meaning opts) default none ≡ ok r
      → parse_create S (spell (id ∷ opts)) ≡ ok (New.create (meaning id) r.0 r.1)
  unfolding parse_create
  parse_create_options id opts r i h e =
      rw (next_token-argument id (spell opts) i (spell-Stops opts), tokens_of-spell opts h, e) refl

  dispatch-create : (s : Text) → dispatch S (codes "CREATE") s ≡ parse_create S s
  unfolding dispatch text_eq
  dispatch-create s = refl

  parse_line-create :
      (n : ℕ) (name : Text) (id : Argument) (opts : List Argument) (r : Strategy × Option ℕ)
      → to_uppercase (n ∷ name) ≡ codes "CREATE"
      → IsArgument (plain (n ∷ name))
      → IsArgument id
      → All IsArgument opts
      → create_options (map meaning opts) default none ≡ ok r
      → trim ((n ∷ name) ++ spell (id ∷ opts)) ≡ (n ∷ name) ++ spell (id ∷ opts)
      → parse_line S ((n ∷ name) ++ spell (id ∷ opts)) ≡ ok (New.create (meaning id) r.0 r.1)
  parse_line-create n name id opts r upper a i h e t =
      parse_line_first n name (spell (id ∷ opts)) a (spell-Stops (id ∷ opts)) t
      ∙ ap (λ u. dispatch S u (spell (id ∷ opts))) upper
      ∙ dispatch-create (spell (id ∷ opts))
      ∙ parse_create_options id opts r i h e

  -- A line of CREATE, its name and the words of its options in letters of any case and no space at its
  -- ends, with the displayed name of a strategy and a time to live in either order, gives the command
  -- that creates the document with these; one without options gives the command with the default
  -- strategy and no time to live.
  pub parse_create-spell :
      (c : ℕ) (name : Text) (id word_strategy word_ttl ms : Argument) (s : Strategy) (n : ℕ)
      → let by_strategy = id ∷ word_strategy ∷ plain (name_of s) ∷ word_ttl ∷ ms ∷ [] in
        let by_ttl = id ∷ word_ttl ∷ ms ∷ word_strategy ∷ plain (name_of s) ∷ [] in
        to_uppercase (c ∷ name) ≡ codes "CREATE"
        → IsArgument (plain (c ∷ name))
        → All IsArgument (id ∷ word_strategy ∷ word_ttl ∷ ms ∷ [])
        → to_uppercase (meaning word_strategy) ≡ codes "STRATEGY"
        → to_uppercase (meaning word_ttl) ≡ codes "TTL"
        → parse_usize (meaning ms) ≡ some n
        → trim ((c ∷ name) ++ spell by_strategy) ≡ (c ∷ name) ++ spell by_strategy
        → trim ((c ∷ name) ++ spell by_ttl) ≡ (c ∷ name) ++ spell by_ttl
        → trim ((c ∷ name) ++ spell (id ∷ [])) ≡ (c ∷ name) ++ spell (id ∷ [])
        → (parse_line S ((c ∷ name) ++ spell by_strategy) ≡ ok (New.create (meaning id) s (some n)))
          × (parse_line S ((c ∷ name) ++ spell by_ttl) ≡ ok (New.create (meaning id) s (some n)))
          × (parse_line S ((c ∷ name) ++ spell (id ∷ []))
              ≡ ok (New.create (meaning id) default none))
  parse_create-spell c name id ws wt ms s n upper a (i, (w, (t, (m, _)))) us ut e t0 t1 t2 =
      let both =
        options_both (meaning ws) (meaning wt) (name_of s) (meaning ms) s n us ut
          (parse_strategy-name_of s) e in
      let p = name_of-IsArgument s in
      (
        parse_line-create c name id (ws ∷ plain (name_of s) ∷ wt ∷ ms ∷ []) (s, some n) upper a i
            (w, (p, (t, (m, tt)))) both.0 t0,
        parse_line-create c name id (wt ∷ ms ∷ ws ∷ plain (name_of s) ∷ []) (s, some n) upper a i
            (t, (m, (w, (p, tt)))) both.1 t1,
        parse_line-create c name id [] (default, none) upper a i tt (unfold create_options in refl)
            t2,
      )
