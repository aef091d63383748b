-- ===== src/Base/Common.antt =====
-- include/unity/storage/common.h.
pub data ItemType : Type 0 where
  file folder root : ItemType
