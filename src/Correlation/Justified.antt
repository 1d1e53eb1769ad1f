-- ===== src/Correlation/Justified.antt =====
-- internal/correlation/link.go: what every link states of its two findings.
use secure_dev.Prelude.{true, false, ◌≡◌, some}
use secure_dev.Prelude.Sort.{text_lt}
use secure_dev.Correlation.{Key, Link, Subject}
use secure_dev.Correlation.Links.{directed, link_for}
use secure_dev.Correlation.Grouping.{carries}

-- The link is the claim of one rule about two findings that share the rule's key, its ends in
-- order.
pub record IsJustified (F : Type 0) (l : Link) : Type 0 where
  pub shared : Key
  pub first : Subject F
  pub second : Subject F
  pub first_carries : carries shared first ≡ true
  pub second_carries : carries shared second ≡ true
  pub claim : Link
  pub claimed : link_for shared first second ≡ some claim
  pub ends : directed claim ≡ l
  pub ordered : text_lt l.to l.from ≡ false
