-- ===== src/Tree/Stores.antt =====
-- `Put` of the tree returns after at most one ExpandTree, with the pair stored.
use nali.Group
use nali.Tree.Grown.{Grown}
