-- ===== src/Paths/Agree.antt =====
-- The two ways to a Windows folder, from Windows and from WSL, meet in the container.
