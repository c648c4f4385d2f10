-- ===== src/Conversations.antt =====
-- The conversations of the owner: frontend/src/pages/ConversationsPage.tsx is Page, and
-- frontend/src/components/dashboard/ConversationCard.tsx and ChatPanel.tsx are Card and Chat.
pub mod Page
pub mod Card
pub mod Chat
mod Tests
use whatsapp_bots_saa_s.Base.{ℕ, Bool, true, false, Option}
use whatsapp_bots_saa_s.Text.{Text}

pub data Status : Type 0 where
  bot waiting human closed : Status

-- The parts of a conversation that the code reads.
pub record Conversation : Type 0 where
  pub conversation_id : Text
  pub status : Status
  pub unread : ℕ
  pub contact_name : Option Text
  pub phone : Option Text

unfoldable pub same_status : Status → Status → Bool
same_status bot bot = true
same_status waiting waiting = true
same_status human human = true
same_status closed closed = true
same_status bot waiting = false
same_status bot human = false
same_status bot closed = false
same_status waiting bot = false
same_status waiting human = false
same_status waiting closed = false
same_status human bot = false
same_status human waiting = false
same_status human closed = false
same_status closed bot = false
same_status closed waiting = false
same_status closed human = false
