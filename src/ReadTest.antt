-- ===== src/ReadTest.antt =====
-- read_test: the repository's second server, a rewrite of linux_c++_6_4/nginx. What it has word for word
-- from there is not modelled again: the structures, PutOneToFree, GetOneToUse, the taking and giving back
-- of connections and the memory are those of Net.
pub mod Conf
pub mod Pool
