-- ===== src/Routes/Issue/Laws.antt =====
-- What a request to issue passes does.
