-- ===== src/Tests/Requests.antt =====
-- Tests of the check of an outgoing request, and the theorem about it at a concrete input.
use go_signal.Base.{◌≡◌, refl, false, none, some, [], ◌∷◌, codes}
use go_signal.Request.Check.{check}
use go_signal.Request.Content.{invalid_content}
use go_signal.Request.Kinds.{OneKind, check-OneKind}
use go_signal.Request.Styles.{check_text_styles}
use go_signal.Types.{SendRequest, of_aci}
use go_signal.Uuid.{UuidLib}

instance abbrev any_text : UuidLib
any_text = record { parse = λ s. some s; to_string = λ s. s; nil = codes "0" }

abbrev reacting : SendRequest
reacting = record {
  recipients = of_aci (codes "ann") ∷ [];
  group_id = codes "";
  body = codes "";
  timestamp = 0;
  edit_target = 0;
  attachments = [];
  sticker = none;
  story = none;
  poll_create = none;
  poll_vote = none;
  poll_close = none;
  pin = none;
  unpin = none;
  quote = none;
  mentions = [];
  styles = [];
  reaction = some (record {
    emoji = codes "+";
    remove = false;
    target_author = of_aci (codes "ann");
    target_timestamp = 7;
  });
  delete_target = 0;
}

check_content : check (record reacting { body = codes "hello" }) ≡ some invalid_content
unfolding check check_text_styles
check_content = refl

check-OneKind_example : OneKind reacting
unfolding check_text_styles
check-OneKind_example = check-OneKind reacting (unfold check in refl)
