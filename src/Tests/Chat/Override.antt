-- ===== src/Tests/Chat/Override.antt =====
-- crates/ar-chat/src/handler.rs: its theorem on reviews that cannot be listed.
use auto_review.Prelude.{◌≡◌, refl, true, []}
use auto_review.Prelude.Text.{codes, text_eq}
use auto_review.Chat.Override.{handle_override_approval}
use auto_review.Chat.Override.Authorized.{has_approval, unlisted_approves}
use auto_review.Tests.Fixtures.{router}
use auto_review.Tests.Chat.Setup.{opened, ctx, chat_parts, unlisted, silent}

open_state : text_eq (codes "open") (codes "open") ≡ true
unfolding text_eq
open_state = refl

unlisted_approves_example :
    has_approval
      (handle_override_approval unlisted router chat_parts ctx (codes "approve") silent).0.asked
    ≡ true
unlisted_approves_example =
    unlisted_approves unlisted router chat_parts ctx (codes "approve") silent opened 0
      (record { message = [] }) refl refl open_state refl (λ t l. refl)
