-- ===== src/Graders/Number/Laws.antt =====
-- x
