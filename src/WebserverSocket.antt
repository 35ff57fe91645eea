-- ===== src/WebserverSocket.antt =====
-- webserversocket.go: the server that tells a web server whether to let a client in.
pub mod Padding
pub mod Cipher
pub mod Cookie
pub mod Decide
pub mod Verdicts
pub mod Captcha
pub mod Serve
pub mod Tests
