-- ===== src/Samples/Library.antt =====
-- A library of documents that are plain texts, in place of `yrs`.
use native.Mathlib.Nat.{zero-add}
use ussl.Prelude.{◌+◌, ◌≢◌, refl, [], ◌∷◌, ◌++◌, Option, none, some, take, drop, append-nil}
use ussl.Text.{Text, codes}
use ussl.Core.Document.State.{Yrs}
use ussl.Core.Document.Reads.{TextLaws}
use ussl.Core.Manager.Restored.{SyncLaws}

abbrev decode_plain : Text → Option Text
decode_plain [] = none
decode_plain (c ∷ s) = some s

abbrev pub plain : Yrs
plain = record {
  Doc = Text;
  new_doc = [];
  get_string = λ d. d;
  remove_range = λ i n d. take i d ++ drop (i + n) d;
  insert = λ i t d. take i d ++ (t ++ drop i d);
  encode_state_as_update = λ d. b'y' ∷ d;
  Update = Text;
  decode = decode_plain;
  decode_message = λ s. codes "bad update";
  apply_update = λ u d. u ++ d;
}

pub plain_text : TextLaws plain
plain_text = record {
  get_string-insert = λ t d. refl;
  get_string-remove_range = λ n d h. rw zero-add;
  get_string-new_doc = refl;
}

pub plain_filled : (d : Text) → ◌≢◌ {A = Text} (b'y' ∷ d) []
plain_filled d e = cc e

abbrev pub plain_sync : SyncLaws plain
plain_sync = record {
  encoded = λ d. d;
  state_filled = plain_filled;
  decode-state = λ d. refl;
  get_string-apply_update = λ d. append-nil d;
}
