-- ===== src/PageOps/Protection.antt =====
-- What the page table program answers for a change of protection.
