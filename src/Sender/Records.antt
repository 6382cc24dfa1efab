-- ===== src/Sender/Records.antt =====
-- `send_record` of mcproxy/src/proxy/igmp_sender.cpp and of mcproxy/src/proxy/mld_sender.cpp.
use mcproxy.Base.{ℕ, ◌≡◌, refl, Bool, false, not, List, [], ◌∷◌, if◌then◌else◌, is_empty}
use mcproxy.Protocol.{McFilter, include_mode, exclude_mode}
use mcproxy.Message.{Source}
use mcproxy.Sender.{igmp_send_record, mld_send_record}
use mcproxy.Querier.Received.{answer}

-- An INCLUDE record that names sources.
abbrev pub includes_some : McFilter → List Source → Bool
includes_some include_mode l = not (is_empty l)
includes_some exclude_mode l = false

-- The senders make the same socket calls and return the same value, whatever the socket answers,
-- but for an INCLUDE record that names sources: for it `mld_sender` makes no call and returns false.
pub mld_send_record-igmp_send_record :
    (answer : Bool) (m : McFilter) (gaddr : ℕ) (l : List Source)
    → mld_send_record answer m gaddr l
      ≡ (if includes_some m l then ([], false) else igmp_send_record answer m gaddr l)
unfolding mld_send_record igmp_send_record
mld_send_record-igmp_send_record answer include_mode gaddr [] = refl
mld_send_record-igmp_send_record answer include_mode gaddr (s ∷ l) = refl
mld_send_record-igmp_send_record answer exclude_mode gaddr [] = refl
mld_send_record-igmp_send_record answer exclude_mode gaddr (s ∷ l) = refl
